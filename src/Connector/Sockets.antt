-- ===== src/Connector/Sockets.antt =====
-- Every descriptor that a connector opens is closed, handed over, or held by its channel.
use toy_basket.Prelude.{
  ℕ, ◌+◌, ◌≤◌, List, [], ◌∷◌, ◌++◌, Bool, true, false, if◌then◌else◌, Option, none, some, ◌>>=◌,
  check, length, length-append, ◌≡◌, ◌≢◌, refl, sym, subst, ap, ◌∙◌, Bool-cases, inl, inr, arith,
}
use toy_basket.Channel.{Channel, is_idle}
use toy_basket.Channel.Mask.{is_idle_lem}
use toy_basket.Connector.{
  Connector, States, k_disconnected, k_connecting, k_connected, Effect, run_start, queue_stop,
  queue_reset, add_timer, close_fd, new_connection_callback, Errno, success, einprogress, eintr,
  eisconn, eagain, eaddrinuse, eaddrnotavail, econnrefused, enetunreach, init_retry_delay_ms,
  max_retry_delay_ms, new_connector, is_disconnected, is_connecting, emit, retry, connecting,
  connect, start_in_loop, start, restart, stop, remove_and_reset_channel, reset_channel,
  stop_in_loop, handle_write, handle_error, Action, starts, runs_start, restarts, stops, runs_stop,
  resets, writable, error, act, act_all,
}

-- The descriptors that the connector is done with.
abbrev pub settles : Effect → ℕ
settles (close_fd fd) = 1
settles (new_connection_callback fd) = 1
settles e = 0

abbrev pub settled : List Effect → ℕ
settled [] = 0
settled (e ∷ rest) = settles e + settled rest

abbrev pub held : Option Channel → ℕ
held none = 0
held (some ch) = if ch.added_to_loop then 1 else 0

pub record IsValid (c : Connector) : Type 0 where
  pub balance : settled c.effects + held c.channel ≡ length c.opened
  pub active : is_connecting c.state ≡ true → held c.channel ≡ 1
  pub delay : c.retry_delay_ms ≤ max_retry_delay_ms

abbrev pub Keeps : Option Connector → Type 0
Keeps none = Unit
Keeps (some c) = IsValid c

settled-append : (xs : List Effect) (e : Effect) → settled (xs ++ e ∷ []) ≡ settled xs + settles e
settled-append [] e = omega arith
settled-append (x ∷ xs) e = omega (arith, settled-append xs e)

-- A descriptor that no channel holds may be given up.
retry_lem :
    (c : Connector) (sockfd : ℕ)
    → settled c.effects + held c.channel + 1 ≡ length c.opened
    → c.retry_delay_ms ≤ max_retry_delay_ms
    → IsValid (retry c sockfd)
unfolding retry
retry_lem c sockfd e d = elim (Bool-cases c.connects) [
  | inl on ↦ rw on (record {
    balance = omega (
      arith,
      e,
      settled-append c.effects (close_fd sockfd),
      settled-append (c.effects ++ close_fd sockfd ∷ []) (add_timer c.retry_delay_ms),
    );
    active = λ h. cc;
    delay = omega arith;
  })
  | inr off ↦ rw off (record {
    balance = omega (arith, e, settled-append c.effects (close_fd sockfd));
    active = λ h. cc;
    delay = d;
  })
]

connecting_lem :
    (c : Connector) (sockfd : ℕ)
    → settled c.effects + held c.channel + 1 ≡ length c.opened
    → c.retry_delay_ms ≤ max_retry_delay_ms
    → Keeps (connecting c sockfd)
unfolding connecting
connecting_lem c sockfd e d = by_channel c.channel refl
  where
    by_channel : (ch : Option Channel) → c.channel ≡ ch → Keeps (connecting c sockfd)
    by_channel none n =
        rw n (record { balance = omega (arith, e, ap held n); active = λ h. refl; delay = d })
    by_channel (some ch) n = rw n tt

connect_lem :
    (c : Connector) (sockfd : ℕ) (errno : Errno)
    → settled c.effects + held c.channel + 1 ≡ length c.opened
    → (is_connecting c.state ≡ false)
    → c.retry_delay_ms ≤ max_retry_delay_ms
    → Keeps (connect c sockfd errno)
unfolding connect
connect_lem c sockfd success e n d = connecting_lem c sockfd e d
connect_lem c sockfd einprogress e n d = connecting_lem c sockfd e d
connect_lem c sockfd eintr e n d = connecting_lem c sockfd e d
connect_lem c sockfd eisconn e n d = connecting_lem c sockfd e d
connect_lem c sockfd eagain e n d = retry_lem c sockfd e d
connect_lem c sockfd eaddrinuse e n d = retry_lem c sockfd e d
connect_lem c sockfd eaddrnotavail e n d = retry_lem c sockfd e d
connect_lem c sockfd econnrefused e n d = retry_lem c sockfd e d
connect_lem c sockfd enetunreach e n d = retry_lem c sockfd e d
connect_lem c sockfd errno e n d = record {
  balance = omega (arith, e, settled-append c.effects (close_fd sockfd));
  active = λ h. cc;
  delay = d;
}

if-Keeps :
    (b : Bool) (x y : Option Connector)
    → (b ≡ true → Keeps x)
    → (b ≡ false → Keeps y)
    → Keeps (if b then x else y)
if-Keeps true x y h k = h refl
if-Keeps false x y h k = k refl

if-IsValid : (b : Bool) (x y : Connector) → IsValid x → IsValid y → IsValid (if b then x else y)
if-IsValid true x y h k = h
if-IsValid false x y h k = k

done_with :
    (c : Connector) (e : Effect)
    → settled c.effects + held c.channel + 1 ≡ length c.opened
    → settles e ≡ 1
    → c.retry_delay_ms ≤ max_retry_delay_ms
    → IsValid (emit (record c { state = k_connected }) e)
done_with c e h one d = record {
  balance = omega (arith, h, one, settled-append c.effects e);
  active = λ h. cc;
  delay = d;
}

then-Keeps :
    (r : Option Connector) (f : Connector → Option Connector)
    → Keeps r
    → ((c : Connector) → IsValid c → Keeps (f c))
    → Keeps (r >>= f)
then-Keeps none f k h = tt
then-Keeps (some c) f k h = h c k

check-Keeps :
    (b : Bool) (f : Unit → Option Connector) → (b ≡ true → Keeps (f tt)) → Keeps (check b >>= f)
check-Keeps true f h = h refl
check-Keeps false f h = tt

not_both : (s : States) → is_disconnected s ≡ true → is_connecting s ≡ false
not_both k_disconnected h = refl
not_both k_connecting h = cc
not_both k_connected h = refl

both : {b : Bool} → b ≡ false → b ≡ true → ⊥
both f t = cc

start_in_loop_lem :
    (c : Connector) (sockfd : ℕ) (errno : Errno)
    → settled c.effects + held c.channel ≡ length c.opened
    → c.retry_delay_ms ≤ max_retry_delay_ms
    → Keeps (start_in_loop c sockfd errno)
unfolding start_in_loop
start_in_loop_lem c sockfd errno e d = check-Keeps (is_disconnected c.state) _ (λ idle.
    if-Keeps c.connects _ _
      (λ on.
        connect_lem (record c { opened = c.opened ++ sockfd ∷ [] }) sockfd errno
          (omega (arith, e, length-append c.opened (sockfd ∷ []))) (not_both c.state idle) d)
      (λ off. record {
        balance = e;
        active = λ h. absurd (both (not_both c.state idle) h);
        delay = d;
      }))

-- A connector that is connecting has a channel; without it the descriptor is its own again.
remove_lem :
    (c : Connector) (f : ℕ → Connector → Option Connector)
    → held c.channel ≡ 1
    → settled c.effects + held c.channel ≡ length c.opened
    → ((sockfd : ℕ) (c₁ : Connector)
        → settled c₁.effects + held c₁.channel + 1 ≡ length c₁.opened
        → c₁.retry_delay_ms ≡ c.retry_delay_ms
        → held c₁.channel ≡ 0
        → Keeps (f sockfd c₁))
    → Keeps (remove_and_reset_channel c >>= (λ r. f r.0 r.1))
unfolding remove_and_reset_channel
remove_lem c f one e k = by_channel c.channel refl
  where
    by_channel :
        (ch : Option Channel)
        → c.channel ≡ ch
        → Keeps (remove_and_reset_channel c >>= (λ r. f r.0 r.1))
    by_channel none n = rw n tt
    by_channel (some ch) n =
        let channel_one : held (some ch) ≡ 1 = ap held (sym n) ∙ one in
        rw n (k ch.fd _ (omega (arith, e, one, settled-append c.effects queue_reset)) refl refl)

reset_channel_lem : (c : Connector) → IsValid c → Keeps (reset_channel c)
unfolding reset_channel
reset_channel_lem c v = by_channel c.channel refl
  where
    by_channel : (ch : Option Channel) → c.channel ≡ ch → Keeps (reset_channel c)
    by_channel none n = rw n (record {
      balance = omega (arith, v.balance, ap held n);
      active = λ on. omega (arith, v.active on, ap held n);
      delay = v.delay;
    })
    by_channel (some ch) n = rw n (
        check-Keeps (is_idle ch) _ (λ idle.
          let gone : held (some ch) ≡ 0 = rw (is_idle_lem ch idle) refl in
          record {
            balance = omega (arith, v.balance, ap held n, gone);
            active = λ on. absurd (omega (arith, v.active on, ap held n, gone));
            delay = v.delay;
          }))

stop_in_loop_lem : (c : Connector) → IsValid c → Keeps (stop_in_loop c)
unfolding stop_in_loop
stop_in_loop_lem c v =
    if-Keeps (is_connecting c.state) _ _
      (λ on.
        remove_lem (record c { state = k_disconnected }) (λ fd c₁. some (retry c₁ fd)) (v.active on)
          v.balance (λ fd c₁ e d h. retry_lem c₁ fd e (omega (arith, d, v.delay))))
      (λ off. v)

handle_error_lem : (c : Connector) → IsValid c → Keeps (handle_error c)
unfolding handle_error
handle_error_lem c v =
    if-Keeps (is_connecting c.state) _ _
      (λ on.
        remove_lem c (λ fd c₁. some (retry c₁ fd)) (v.active on) v.balance
          (λ fd c₁ e d h. retry_lem c₁ fd e (omega (arith, d, v.delay))))
      (λ off. v)

handle_write_lem :
    (c : Connector) (has_error is_self_connect : Bool)
    → IsValid c
    → Keeps (handle_write c has_error is_self_connect)
unfolding handle_write
handle_write_lem c has_error is_self v =
    if-Keeps (is_connecting c.state) _ _
      (λ on. remove_lem c _ (v.active on) v.balance (λ fd c₁ e d h.
        let delay : c₁.retry_delay_ms ≤ max_retry_delay_ms = omega (arith, d, v.delay) in
        if-IsValid has_error _ _ (retry_lem c₁ fd e delay) (
          if-IsValid is_self _ _ (retry_lem c₁ fd e delay) (
            if-IsValid c₁.connects _ _ (done_with c₁ (new_connection_callback fd) e refl delay)
              (done_with c₁ (close_fd fd) e refl delay)))))
      (λ off. check-Keeps (is_disconnected c.state) _ (λ idle. v))

start_lem :
    (in_loop_thread : Bool) (c : Connector) (sockfd : ℕ) (errno : Errno)
    → IsValid c
    → Keeps (start in_loop_thread c sockfd errno)
unfolding start
start_lem true c sockfd errno v =
    start_in_loop_lem (record c { connects = true }) sockfd errno v.balance v.delay
start_lem false c sockfd errno v = record {
  balance = omega (arith, v.balance, settled-append c.effects run_start);
  active = v.active;
  delay = v.delay;
}

act-Keeps : (c : Connector) (a : Action) → IsValid c → Keeps (act c a)
unfolding act restart stop
act-Keeps c (starts in_loop_thread sockfd errno) v = start_lem in_loop_thread c sockfd errno v
act-Keeps c (runs_start sockfd errno) v = start_in_loop_lem c sockfd errno v.balance v.delay
act-Keeps c (restarts sockfd errno) v =
    start_in_loop_lem
      (record c { state = k_disconnected; retry_delay_ms = init_retry_delay_ms; connects = true })
      sockfd errno v.balance (omega arith)
act-Keeps c stops v = record {
  balance = omega (arith, v.balance, settled-append c.effects queue_stop);
  active = v.active;
  delay = v.delay;
}
act-Keeps c runs_stop v = stop_in_loop_lem c v
act-Keeps c resets v = reset_channel_lem c v
act-Keeps c (writable has_error is_self) v = handle_write_lem c has_error is_self v
act-Keeps c error v = handle_error_lem c v

act_all-Keeps : (c : Connector) (actions : List Action) → IsValid c → Keeps (act_all c actions)
unfolding act_all
act_all-Keeps c [] v = v
act_all-Keeps c (a ∷ rest) v =
    then-Keeps (act c a) _ (act-Keeps c a v) (λ c' k. act_all-Keeps c' rest k)

-- Whatever happens to a new connector, as long as no assertion has failed: each descriptor that it
-- has opened has been closed or handed over, except for one if its channel is in the loop; the
-- channel is in the loop if the connector is connecting, and the retry delay is within its bound.
pub act_all-IsValid :
    (actions : List Action) (c : Connector) → act_all new_connector actions ≡ some c → IsValid c
act_all-IsValid actions c done = subst Keeps done (
    act_all-Keeps new_connector actions
      (record { balance = refl; active = λ h. cc; delay = omega arith }))

-- On such a connector the functor of `stop` and the error handler fail no assertion.
pub stop_in_loop_total :
    (c : Connector) → IsValid c → (stop_in_loop c ≢ none) × (handle_error c ≢ none)
unfolding stop_in_loop handle_error remove_and_reset_channel
stop_in_loop_total c v = elim (Bool-cases (is_connecting c.state)) [
  | inr off ↦ rw off ((λ e. cc), (λ e. cc))
  | inl on ↦ by_channel c.channel refl on
]
  where
    by_channel :
        (ch : Option Channel)
        → c.channel ≡ ch
        → is_connecting c.state ≡ true
        → (stop_in_loop c ≢ none) × (handle_error c ≢ none)
    by_channel none n on = absurd (omega (arith, v.active on, ap held n))
    by_channel (some ch) n on = rw (on, n) ((λ e. cc), (λ e. cc))
