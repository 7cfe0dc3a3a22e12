-- ===== src/Connector/Retry.antt =====
-- `Connector::retry`: the delay between two attempts, and the timers that nobody cancels.
use Prim.Native.Nat.{◌^◌}
use native.Mathlib.Nat.{
  mul_assoc, mul_comm, le-mul_of_pos_right, mul-le-mul_right, pow-succ', one-le-pow,
}
use toy_basket.Prelude.{
  ℕ, zero, suc, ◌*◌, ◌≤◌, min, [], ◌∷◌, ◌++◌, true, none, some, replicate, ◌≡◌, refl, sym, ap, ltb,
  ltb→lt, ltb→le, Bool-cases, inl, inr, ◌∙◌, arith,
}
use toy_basket.Connector.{
  Connector, k_disconnected, close_fd, add_timer, Errno, econnrefused, einprogress,
  max_retry_delay_ms, new_connector, retry, connect, start_in_loop, connecting, start, stop,
  stop_in_loop, starts, runs_start, stops, runs_stop, act, act_all,
}

-- Doubling and capping `n` more times is one product and one cap.
capped : (d p m : ℕ) → 1 ≤ p → min (min (d * 2) m * p) m ≡ min (d * (2 * p)) m
capped d p m one = elim (Bool-cases (ltb (d * 2) m)) [
  | inl small ↦
      let e : min (d * 2) m ≡ d * 2 = omega (arith, ltb→lt _ _ small) in
      ap (λ x. min (x * p) m) e ∙ ap (λ x. min x m) (mul_assoc d 2 p)
  | inr large ↦
      let above : m ≤ d * 2 = omega (arith, ltb→le _ _ large) in
      let e : min (d * 2) m ≡ m = omega (arith, above) in
      let at_cap : min (m * p) m ≡ m = omega (arith, le-mul_of_pos_right m one) in
      let beyond : min (d * (2 * p)) m ≡ m = omega (
        arith,
        le-mul_of_pos_right m one,
        mul-le-mul_right p above,
        mul_assoc d 2 p,
        mul_comm p m,
      ) in
      ap (λ x. min (x * p) m) e ∙ at_cap ∙ sym beyond
]

-- After `n` refused attempts in a row the next delay is 2^n times as long, up to the largest.
pub refused_lem :
    (n sockfd : ℕ) (c : Connector)
    → c.state ≡ k_disconnected
    → c.connects ≡ true
    → c.retry_delay_ms ≤ max_retry_delay_ms
    → (c' : Connector) × (act_all c (replicate n (runs_start sockfd econnrefused)) ≡ some c')
      × (c'.state ≡ k_disconnected)
      × (c'.connects ≡ true)
      × (c'.retry_delay_ms ≡ min (c.retry_delay_ms * 2 ^ n) max_retry_delay_ms)
unfolding act_all act start_in_loop connect retry
refused_lem zero sockfd c s on d = (c, refl, s, on, omega arith)
refused_lem (suc n) sockfd c s on d =
    let (c', done, s', on', delay) =
      refused_lem n sockfd
        (record c {
          connects = true;
          state = k_disconnected;
          opened = c.opened ++ sockfd ∷ [];
          retry_delay_ms = min (c.retry_delay_ms * 2) max_retry_delay_ms;
          effects = (c.effects ++ close_fd sockfd ∷ []) ++ add_timer c.retry_delay_ms ∷ [];
        })
        refl refl (omega arith) in
    (
      c',
      (rw (s, on) done),
      s',
      on',
      delay
          ∙ capped c.retry_delay_ms (2 ^ n) max_retry_delay_ms (one-le-pow n 2 (omega arith))
          ∙ ap (λ x. min (c.retry_delay_ms * x) max_retry_delay_ms) (sym (pow-succ' 2 n)),
    )

-- A retry timer outlives `stop`. If the connector is started again before the timer expires, and is
-- connecting when it does, `startInLoop` fails its assertion.
pub stale_timer :
    (a b c : ℕ) (errno : Errno)
    → act_all new_connector (
        starts true a econnrefused
        ∷ stops
        ∷ runs_stop
        ∷ starts true b einprogress
        ∷ runs_start c errno
        ∷ [])
      ≡ none
unfolding act_all act start start_in_loop connect retry connecting stop stop_in_loop
stale_timer a b c errno = refl
