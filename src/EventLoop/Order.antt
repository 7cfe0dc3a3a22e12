-- ===== src/EventLoop/Order.antt =====
-- `queueInLoop` and `doPendingFunctors`: which functors run, and in which order.
use toy_basket.Prelude.{
  List, [], ◌∷◌, ◌++◌, Bool, true, arith, ltb, ◌≡◌, refl, sym, ap, ◌∙◌, Bool-cases, inl, inr,
  append-nil, append_assoc,
}
use toy_basket.EventLoop.{
  EventLoop, Phase, outside, testing, polling, handling, starting, calling, System, Action, push,
  set_quit, wake, early_queue, start, test, poll_returns, handler_queues, handled, swap, run_next,
  finish, wakeup, queue_in_loop, queue_all, loop_step, step, run, initial, handle_read,
}

module _ {ℓ} {F : Type ℓ} where
  -- The functors that `doPendingFunctors` has taken and not yet run.
  abbrev pub taken : Phase F → List F
  taken (calling fs) = fs
  taken phase = []

  -- Everything that has been queued has run, is about to run, or is pending, in this order.
  abbrev pub IsInOrder : System F → Type ℓ
  IsInOrder s = s.ran ++ (taken s.phase ++ s.loop.pending_functors) ≡ s.queued

  pub wakeup-pending : (l : EventLoop F) → (wakeup l).pending_functors ≡ l.pending_functors
  unfolding wakeup
  wakeup-pending l = ground arith

  pub queue_in_loop-pending :
      (b : Bool) (l : EventLoop F) (f : F)
      → (queue_in_loop b l f).pending_functors ≡ l.pending_functors ++ f ∷ []
  unfolding queue_in_loop wakeup
  queue_in_loop-pending b l f = ground arith

  pub queue_all-pending :
      (l : EventLoop F) (fs : List F) → (queue_all l fs).pending_functors ≡ l.pending_functors ++ fs
  unfolding queue_all
  queue_all-pending l [] = sym (append-nil l.pending_functors)
  queue_all-pending l (f ∷ fs) =
      queue_all-pending (queue_in_loop true l f) fs
      ∙ ap (λ p. p ++ fs) (queue_in_loop-pending true l f)
      ∙ append_assoc l.pending_functors (f ∷ []) fs

  -- A functor that joins the pending ones joins the queue at its end.
  pub more_pending :
      (ran fs p q more p' : List F)
      → ran ++ (fs ++ p) ≡ q
      → p' ≡ p ++ more
      → ran ++ (fs ++ p') ≡ q ++ more
  more_pending ran fs p q more p' e e' =
      rw (e', sym e)
        (ap (λ xs. ran ++ xs) (sym (append_assoc fs p more))
          ∙ sym (append_assoc ran (fs ++ p) more))

  loop_step-IsInOrder :
      (s : System F) (ph : Phase F) (a : Action F)
      → s.phase ≡ ph
      → IsInOrder s
      → IsInOrder (loop_step ph a s)
  unfolding loop_step handle_read
  loop_step-IsInOrder s outside (early_queue f) e h =
      more_pending s.ran (taken s.phase) s.loop.pending_functors s.queued (f ∷ []) _ h
        (queue_in_loop-pending true s.loop f)
  loop_step-IsInOrder s outside start e h = rw e at h
  loop_step-IsInOrder s testing test e h = elim (Bool-cases s.loop.quit) [
    | inl q ↦ rw q (rw e at h)
    | inr q ↦ rw q (rw e at h)
  ]
  loop_step-IsInOrder s polling poll_returns e h = rw e at h
  loop_step-IsInOrder s handling (handler_queues f) e h =
      more_pending s.ran (taken s.phase) s.loop.pending_functors s.queued (f ∷ []) _ h
        (queue_in_loop-pending true s.loop f)
  loop_step-IsInOrder s handling handled e h = rw e at h
  loop_step-IsInOrder s starting swap e h = rw (append-nil s.loop.pending_functors) (rw e at h)
  loop_step-IsInOrder s (calling (f ∷ fs)) (run_next queues quits) e h =
      more_pending (s.ran ++ f ∷ []) fs s.loop.pending_functors s.queued queues _
        (append_assoc s.ran (f ∷ []) _ ∙ (rw e at h)) (queue_all-pending _ queues)
  loop_step-IsInOrder s (calling []) finish e h = rw e at h
  loop_step-IsInOrder s ph a e h = h

  -- Each step of each thread keeps the order.
  pub step-IsInOrder : (s : System F) (a : Action F) → IsInOrder s → IsInOrder (step s a)
  unfolding step
  step-IsInOrder s (push f) h =
      more_pending s.ran (taken s.phase) s.loop.pending_functors s.queued (f ∷ []) _ h refl
  step-IsInOrder s set_quit h = h
  step-IsInOrder s wake h = elim (Bool-cases (ltb 0 s.waking)) [
    | inl e ↦ rw (e, wakeup-pending s.loop) h
    | inr e ↦ rw e h
  ]
  step-IsInOrder s a h = loop_step-IsInOrder s s.phase a refl h

  -- Whatever the threads do from the start on, each queued functor has run, is in the batch that is
  -- being run, or is pending, exactly once and in the order of the queueing.
  pub run-IsInOrder :
      (schedule : List (Action F))
      → (run initial schedule).ran
          ++ (taken (run initial schedule).phase ++ (run initial schedule).loop.pending_functors)
        ≡ (run initial schedule).queued
  unfolding run
  run-IsInOrder schedule = from initial schedule refl
    where
      from : (s : System F) (schedule : List (Action F)) → IsInOrder s → IsInOrder (run s schedule)
      from s [] h = h
      from s (a ∷ rest) h = from (step s a) rest (step-IsInOrder s a h)
