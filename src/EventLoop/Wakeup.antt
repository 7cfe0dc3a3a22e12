-- ===== src/EventLoop/Wakeup.antt =====
-- `EventLoop::wakeup`: no functor and no request to quit waits behind a poll that nothing ends.
use toy_basket.Prelude.{
  ℕ, ◌+◌, ◌<◌, ◌⊎◌, List, [], ◌∷◌, ◌++◌, Bool, true, ltb, ◌≡◌, ◌≢◌, refl, sym, subst, ◌∙◌,
  Bool-cases, inl, inr, append-nil, append_assoc, arith, length,
}
use toy_basket.EventLoop.{
  EventLoop, Phase, outside, testing, polling, handling, starting, calling, System, Action, push,
  set_quit, wake, early_queue, start, test, poll_returns, drain, handler_queues, handler_quits,
  handled, swap, run_next, finish, wakeup, queue_in_loop, queue_all, loop_step, step, run, initial,
  created,
}

module _ {ℓ} {F : Type ℓ} where
  -- The eventfd is readable, or a thread is about to write to it: the poll ends.
  abbrev pub IsAwake : EventLoop F → ℕ → Type 0
  IsAwake l waking = 0 < l.wakeups + waking

  -- `callingPendingFunctors_`, by where the loop's thread stands.
  abbrev IsFlagged : Phase F → Bool → Type 0
  IsFlagged starting flag = flag ≡ true
  IsFlagged (calling fs) flag = flag ≡ true
  IsFlagged phase flag = Unit

  -- What the loop would sleep on: in the handlers and up to the swap it is about to look at the
  -- pending functors, and it looks at `quit_` in each phase but the poll.
  abbrev MustWake : Phase F → EventLoop F → Type 0
  MustWake handling l = ⊥
  MustWake starting l = ⊥
  MustWake polling l = (0 < length l.pending_functors) ⊎ (l.quit ≡ true)
  MustWake phase l = 0 < length l.pending_functors

  record IsAlert (ph : Phase F) (l : EventLoop F) (waking : ℕ) : Type 0 where
    flag : IsFlagged ph l.calling_pending_functors
    awake : MustWake ph l → IsAwake l waking

  wakeup-wakeups : (l : EventLoop F) → 0 < (wakeup l).wakeups
  unfolding wakeup
  wakeup-wakeups l = ground arith

  queue_in_loop-wakeups :
      (b : Bool) (l : EventLoop F) (f : F)
      → (l.calling_pending_functors ≡ true)
      → (0 < (queue_in_loop b l f).wakeups)
  unfolding queue_in_loop wakeup
  queue_in_loop-wakeups b l f e = ground arith

  queue_in_loop-flag :
      (b : Bool) (l : EventLoop F) (f : F)
      → (queue_in_loop b l f).calling_pending_functors ≡ l.calling_pending_functors
  unfolding queue_in_loop wakeup
  queue_in_loop-flag b l f = ground arith

  wakeup-flag : (l : EventLoop F) → (wakeup l).calling_pending_functors ≡ l.calling_pending_functors
  unfolding wakeup
  wakeup-flag l = ground arith

  queue_all-wakeups :
      (l : EventLoop F) (fs : List F)
      → l.calling_pending_functors ≡ true
      → (0 < l.wakeups) ⊎ (fs ≢ [])
      → 0 < (queue_all l fs).wakeups
  unfolding queue_all
  queue_all-wakeups l [] e (inl w) = w
  queue_all-wakeups l [] e (inr ne) = absurd (ne refl)
  queue_all-wakeups l (f ∷ fs) e h =
      queue_all-wakeups (queue_in_loop true l f) fs (queue_in_loop-flag true l f ∙ e)
        (inl (queue_in_loop-wakeups true l f e))

  queue_all-flag :
      (l : EventLoop F) (fs : List F)
      → (queue_all l fs).calling_pending_functors ≡ l.calling_pending_functors
  unfolding queue_all
  queue_all-flag l [] = refl
  queue_all-flag l (f ∷ fs) =
      queue_all-flag (queue_in_loop true l f) fs ∙ queue_in_loop-flag true l f

  -- A queueing functor leaves the loop awake, and one that queues nothing leaves it as it was.
  queue_all-awake :
      (l : EventLoop F) (fs : List F) (n : ℕ)
      → l.calling_pending_functors ≡ true
      → (0 < length l.pending_functors → 0 < l.wakeups + n)
      → 0 < length (queue_all l fs).pending_functors
      → 0 < (queue_all l fs).wakeups + n
  unfolding queue_all
  queue_all-awake l [] n e h p = h p
  queue_all-awake l (f ∷ fs) n e h p =
      let w = queue_all-wakeups l (f ∷ fs) e (inr (λ x. cc)) in unfold queue_all in omega (arith, w)

  -- A functor that the loop's thread queues before `loop` runs.
  abbrev pub IsEarly : Action F → Type 0
  IsEarly (early_queue f) = Unit
  IsEarly a = ⊥

  loop_step-Alert :
      (s : System F) (ph : Phase F) (a : Action F)
      → ¬ IsEarly a
      → s.phase ≡ ph
      → IsAlert ph s.loop s.waking
      → IsAlert (loop_step ph a s).phase (loop_step ph a s).loop (loop_step ph a s).waking
  unfolding loop_step
  loop_step-Alert s outside (early_queue f) n e h = absurd (n tt)
  loop_step-Alert s outside start n e h = record { flag = tt; awake = h.awake }
  loop_step-Alert s testing test n e h = elim (Bool-cases s.loop.quit) [
    | inl q ↦ rw q (record { flag = tt; awake = h.awake })
    | inr q ↦ rw q (record { flag = tt; awake = elim [ inl p ↦ h.awake p | inr x ↦ cc ] })
  ]
  loop_step-Alert s polling poll_returns n e h = record { flag = tt; awake = λ x. absurd x }
  loop_step-Alert s handling drain n e h = rw e (record { flag = tt; awake = λ x. absurd x })
  loop_step-Alert s handling (handler_queues f) n e h =
      rw e (record { flag = tt; awake = λ x. absurd x })
  loop_step-Alert s handling handler_quits n e h =
      rw e (record { flag = tt; awake = λ x. absurd x })
  loop_step-Alert s handling handled n e h = record { flag = refl; awake = λ x. absurd x }
  loop_step-Alert s starting swap n e h = record {
    flag = h.flag;
    awake = λ x. absurd (omega (arith, x));
  }
  loop_step-Alert s (calling (f ∷ fs)) (run_next queues quits) n e h = record {
    flag = queue_all-flag _ queues ∙ h.flag;
    awake = queue_all-awake _ queues s.waking h.flag h.awake;
  }
  loop_step-Alert s (calling []) finish n e h = record { flag = tt; awake = h.awake }
  loop_step-Alert s ph a n e h = rw e h

  step-Alert :
      (s : System F) (a : Action F)
      → ¬ IsEarly a
      → IsAlert s.phase s.loop s.waking
      → IsAlert (step s a).phase (step s a).loop (step s a).waking
  unfolding step
  step-Alert s (push f) n h = record { flag = h.flag; awake = λ _. omega arith }
  step-Alert s set_quit n h = record { flag = h.flag; awake = λ _. omega arith }
  step-Alert s wake n h = elim (Bool-cases (ltb 0 s.waking)) [
    | inl e ↦
        let w = wakeup-wakeups s.loop in
        rw e (record { flag = rw (wakeup-flag s.loop) h.flag; awake = λ _. omega (arith, w) })
    | inr e ↦ rw e h
  ]
  step-Alert s a n h = loop_step-Alert s s.phase a n refl h

  abbrev pub NoneEarly : List (Action F) → Type 0
  NoneEarly [] = Unit
  NoneEarly (a ∷ rest) = (¬ IsEarly a) × NoneEarly rest

  -- Whatever the threads do, as long as the loop's thread queues nothing before it calls `loop`: a
  -- loop that is in its poll while a functor is pending or a quit is requested has a readable
  -- eventfd, or another thread is about to write to it.
  pub run-IsAwake :
      (schedule : List (Action F))
      → NoneEarly schedule
      → (run initial schedule).phase ≡ polling
      → (0 < length (run initial schedule).loop.pending_functors)
        ⊎ ((run initial schedule).loop.quit ≡ true)
      → IsAwake (run initial schedule).loop (run initial schedule).waking
  unfolding run
  run-IsAwake schedule none polls =
      (subst (λ ph. IsAlert ph (run initial schedule).loop (run initial schedule).waking) polls
        (follow initial schedule none start_alert)).awake
    where
      start_alert : IsAlert outside created 0
      start_alert = record { flag = tt; awake = λ p. absurd (omega (arith, p)) }

      follow :
          (s : System F) (rest : List (Action F))
          → NoneEarly rest
          → IsAlert s.phase s.loop s.waking
          → IsAlert (run s rest).phase (run s rest).loop (run s rest).waking
      follow s [] n h = h
      follow s (a ∷ rest) n h = follow (step s a) rest n.1 (step-Alert s a n.0 h)

  abbrev pub early_queues : List F → List (Action F)
  early_queues [] = start ∷ test ∷ []
  early_queues (f ∷ fs) = early_queue f ∷ early_queues fs

  -- Functors that the loop's own thread queues before it calls `loop` do not wake it: it is in its
  -- poll, all of them are pending, the eventfd is not readable and nobody is about to write to it.
  pub early_queues_sleep :
      (fs : List F)
      → ((run initial (early_queues fs)).phase ≡ polling)
        × ((run initial (early_queues fs)).loop.pending_functors ≡ fs)
        × (¬ IsAwake (run initial (early_queues fs)).loop (run initial (early_queues fs)).waking)
  unfolding run step loop_step queue_in_loop
  early_queues_sleep fs = from [] [] fs
    where
      idle : List F → List F → System F
      idle done queued = record initial {
        loop = record created { pending_functors = done };
        queued = queued;
      }

      from :
          (done queued fs : List F)
          → ((run (idle done queued) (early_queues fs)).phase ≡ polling)
            × ((run (idle done queued) (early_queues fs)).loop.pending_functors ≡ done ++ fs)
            × (¬ IsAwake
                (run (idle done queued) (early_queues fs)).loop
                (run (idle done queued) (early_queues fs)).waking)
      from done queued [] = (refl, sym (append-nil done), λ h. omega (arith, h))
      from done queued (f ∷ fs) =
          let (a, b, c) = from (done ++ f ∷ []) (queued ++ f ∷ []) fs in
          (a, b ∙ append_assoc done (f ∷ []) fs, c)
