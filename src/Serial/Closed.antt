-- ===== src/Serial/Closed.antt =====
-- A port whose device does not open, and one whose parameters are refused.
use toy_basket.Prelude.{
  ℕ, ◌<◌, ◌≡◌, refl, ap, ◌∙◌, List, [], ◌∷◌, ◌++◌, Bool, true, false, Option, none, some, ◌>>=◌,
  lt→ltb,
}
use toy_basket.Buffer.{Readv}
use toy_basket.StreamConnection.{Write}
use toy_basket.Serial.{
  Serial, open_port, start, started, send, handle_write, handle_read, set_port_param, send_opened,
  destroy,
}

-- A call of the user, or an event of the channel.
pub data Call : Type 0 where
  opens : Option ℕ → Call
  sets : ℕ → ℕ → ℕ → ℕ → Bool → Bool → Call
  starts : Call
  sends : Bool → List ℕ → Write → Call
  has_room : Write → Call
  has_input : Readv → Call

-- An event of the channel comes only if there is one.
abbrev pub if_channel : Serial → Option Serial → Option Serial
if_channel s o = elim s.channel [ none ↦ some s | some ch ↦ o ]

-- The device does not open.
abbrev pub NeverOpens : List Call → Type 0
NeverOpens [] = Unit
NeverOpens (opens none ∷ rest) = NeverOpens rest
NeverOpens (opens (some fd) ∷ rest) = ⊥
NeverOpens (c ∷ rest) = NeverOpens rest

pub record IsStuck (s : Serial) : Type 0 where
  pub no_fd : s.fd ≡ none
  pub no_channel : s.channel ≡ none
  pub still_writing : s.writing ≡ true

module _ (set_speed : ℕ → ℕ → ℕ) where
  pub call_once : Serial → Call → Option Serial
  call_once s (opens fd) = some (open_port s fd)
  call_once s (sets speed databits stopbits parity got set) =
      some ((set_port_param set_speed s speed databits stopbits parity got set).0)
  call_once s starts = some (start s)
  call_once s (sends in_loop message w) = send in_loop s message w
  call_once s (has_room w) = if_channel s (handle_write s w)
  call_once s (has_input r) = if_channel s (handle_read s r)

  pub call_all : Serial → List Call → Option Serial
  call_all s [] = some s
  call_all s (c ∷ rest) = call_once s c >>= λ s'. call_all s' rest

  -- What a call keeps that does not open the device.
  call_once_lem :
      (s : Serial) (c : Call) (rest : List Call)
      → IsStuck s
      → NeverOpens (c ∷ rest)
      → (s' : Serial) × (call_once s c ≡ some s') × IsStuck s' × NeverOpens rest
  unfolding call_once open_port set_port_param start send
  call_once_lem s (opens none) rest k n = (
    open_port s none,
    refl,
    record { no_fd = refl; no_channel = k.no_channel; still_writing = k.still_writing },
    n,
  )
  call_once_lem s (opens (some fd)) rest k n = absurd n
  call_once_lem s (sets a b c d true true) rest k n = (
    _,
    refl,
    record { no_fd = k.no_fd; no_channel = k.no_channel; still_writing = k.still_writing },
    n,
  )
  call_once_lem s (sets a b c d true false) rest k n = (
    _,
    refl,
    record { no_fd = k.no_fd; no_channel = k.no_channel; still_writing = k.still_writing },
    n,
  )
  call_once_lem s (sets a b c d false set) rest k n = (
    _,
    refl,
    record { no_fd = k.no_fd; no_channel = k.no_channel; still_writing = k.still_writing },
    n,
  )
  call_once_lem s starts rest k n = (s, ap (λ o. some (started s o s.channel)) k.no_fd, k, n)
  call_once_lem s (sends in_loop message w) rest k n = (
    record s { writing = true },
    ap (λ o. send_opened in_loop (record s { writing = true }) o message w) k.no_fd,
    record { no_fd = k.no_fd; no_channel = k.no_channel; still_writing = refl },
    n,
  )
  call_once_lem s (has_room w) rest k n =
      (s, ap (λ o. elim o [ none ↦ some s | some ch ↦ handle_write s w ]) k.no_channel, k, n)
  call_once_lem s (has_input r) rest k n =
      (s, ap (λ o. elim o [ none ↦ some s | some ch ↦ handle_read s r ]) k.no_channel, k, n)

  call_all_lem :
      (s : Serial) (calls : List Call)
      → IsStuck s
      → NeverOpens calls
      → (s' : Serial) × (call_all s calls ≡ some s') × IsStuck s'
  unfolding call_all
  call_all_lem s [] k n = (s, refl, k)
  call_all_lem s (c ∷ rest) k n =
      let (s₁, done, k₁, n₁) = call_once_lem s c rest k n in
      let (s', all_done, k') = call_all_lem s₁ rest k₁ n₁ in
      (s', ap (λ o. o >>= λ s'. call_all s' rest) done ∙ all_done, k')

  -- After a `send` on a port that is not open and not started, every sequence of calls in which the
  -- device does not open succeeds and leaves `writing_` set, for which the destructor waits.
  pub send_then_stuck :
      (s : Serial) (in_loop : Bool) (message : List ℕ) (w : Write) (calls : List Call)
      → s.fd ≡ none
      → s.channel ≡ none
      → NeverOpens calls
      → (s' : Serial) × (call_all s (sends in_loop message w ∷ calls) ≡ some s')
        × (s'.writing ≡ true)
  unfolding call_all call_once send
  send_then_stuck s in_loop message w calls e e' n =
      let (s', done, k) =
        call_all_lem (record s { writing = true }) calls
          (record { no_fd = e; no_channel = e'; still_writing = refl }) n in
      (
        s',
        ap
              (λ o. send_opened in_loop (record s { writing = true }) o message w >>= λ s'.
                call_all s' calls)
              e
            ∙ done,
        k.still_writing,
      )

  -- A port whose parameters the device refuses is closed by `setPortParam` and once more by the
  -- destructor.
  pub closed_twice :
      (s : Serial) (fd speed databits stopbits parity : ℕ) (got : Bool)
      → 0 < fd
      → (destroy (
          (set_port_param set_speed
            (open_port s (some fd))
            speed
            databits
            stopbits
            parity
            got
            false).0)).closed
        ≡ (s.closed ++ fd ∷ []) ++ fd ∷ []
  unfolding destroy set_port_param open_port
  closed_twice s fd speed databits stopbits parity true h = rw (lt→ltb 0 fd h) refl
  closed_twice s fd speed databits stopbits parity false h = rw (lt→ltb 0 fd h) refl
