-- ===== src/EventLoop/Rounds.antt =====
-- `EventLoop::loop`: one round of the loop runs what is pending.
use toy_basket.Prelude.{
  List, [], ◌∷◌, ◌++◌, false, ltb, ◌≡◌, refl, sym, ap, ◌∙◌, Bool-cases, inl, inr, append-nil,
  append_assoc,
}
use toy_basket.EventLoop.{
  Phase, outside, testing, polling, handling, starting, calling, System, Action, push, set_quit,
  wake, early_queue, start, test, poll_returns, drain, handler_queues, handler_quits, handled, swap,
  run_next, finish, queue_all, loop_step, step, run, initial, handle_read,
}
use toy_basket.EventLoop.Order.{IsInOrder, taken, step-IsInOrder, run-IsInOrder}

module _ {ℓ} {F : Type ℓ} where
  abbrev Extends : List F → List F → Type ℓ
  Extends due xs = (rest : List F) × (xs ≡ due ++ rest)

  Extends-more : (due xs more : List F) → Extends due xs → Extends due (xs ++ more)
  Extends-more due xs more (rest, e) = (rest ++ more, rw e (append_assoc due rest more))

  -- The functors `due` have run or are about to, unless the loop has still to take its batch: then
  -- they are in the queue.
  abbrev IsDue : List F → Phase F → List F → List F → Type ℓ
  IsDue due polling ran queued = Extends due queued
  IsDue due handling ran queued = Extends due queued
  IsDue due starting ran queued = Extends due queued
  IsDue due phase ran queued = Extends due (ran ++ taken phase)

  IsDue-queued :
      (due : List F) (ph : Phase F) (ran queued more : List F)
      → IsDue due ph ran queued
      → IsDue due ph ran (queued ++ more)
  IsDue-queued due polling ran queued more h = Extends-more due queued more h
  IsDue-queued due handling ran queued more h = Extends-more due queued more h
  IsDue-queued due starting ran queued more h = Extends-more due queued more h
  IsDue-queued due ph ran queued more h = h

  abbrev AllDue : List F → System F → Type ℓ
  AllDue due s = IsDue due s.phase s.ran s.queued

  -- In each step of the loop's thread they stay due.
  loop_step-IsDue :
      (due : List F) (s : System F) (ph : Phase F) (a : Action F)
      → s.phase ≡ ph
      → IsInOrder s
      → IsDue due ph s.ran s.queued
      → AllDue due (loop_step ph a s)
  unfolding loop_step
  loop_step-IsDue due s outside (early_queue f) e o h = rw e h
  loop_step-IsDue due s outside start e o h = h
  loop_step-IsDue due s testing test e o h = elim (Bool-cases s.loop.quit) [
    | inl q ↦ rw q h
    | inr q ↦ rw q (
        let kept = Extends-more due (s.ran ++ []) s.loop.pending_functors h in
        (
          kept.0,
          sym (rw e at o)
              ∙ ap (λ xs. xs ++ s.loop.pending_functors) (sym (append-nil s.ran))
              ∙ kept.1,
        ))
  ]
  loop_step-IsDue due s polling poll_returns e o h = h
  loop_step-IsDue due s handling drain e o h = rw e h
  loop_step-IsDue due s handling (handler_queues f) e o h =
      rw e (Extends-more due s.queued (f ∷ []) h)
  loop_step-IsDue due s handling handler_quits e o h = rw e h
  loop_step-IsDue due s handling handled e o h = h
  loop_step-IsDue due s starting swap e o (rest, h) = (rest, (rw e at o) ∙ h)
  loop_step-IsDue due s (calling (f ∷ fs)) (run_next queues quits) e o (rest, h) =
      (rest, append_assoc s.ran (f ∷ []) fs ∙ h)
  loop_step-IsDue due s (calling []) finish e o h = h
  loop_step-IsDue due s ph a e o h = rw e h

  step-AllDue :
      (due : List F) (s : System F) (a : Action F)
      → IsInOrder s
      → AllDue due s
      → AllDue due (step s a)
  unfolding step
  step-AllDue due s (push f) o h = IsDue-queued due s.phase s.ran s.queued (f ∷ []) h
  step-AllDue due s set_quit o h = h
  step-AllDue due s wake o h = elim (Bool-cases (ltb 0 s.waking)) [
    | inl e ↦ rw e h
    | inr e ↦ rw e h
  ]
  step-AllDue due s a o h = loop_step-IsDue due s s.phase a refl o h

  -- When a loop that was polling gets back to its test, every functor that was queued before has
  -- run, in the order of the queueing, whatever the threads did in between.
  pub round_lem :
      (before after : List (Action F))
      → (run initial before).phase ≡ polling
      → (run (run initial before) after).phase ≡ testing
      → (rest : List F) × ((run (run initial before) after).ran
          ≡ (run initial before).queued ++ rest)
  unfolding run
  round_lem before after polls tests = read_off
    where
      due : List F
      due = (run initial before).queued

      follow :
          (s : System F) (rest : List (Action F))
          → IsInOrder s
          → AllDue due s
          → AllDue due (run s rest)
      follow s [] o h = h
      follow s (a ∷ rest) o h =
          follow (step s a) rest (step-IsInOrder s a o) (step-AllDue due s a o h)

      end : AllDue due (run (run initial before) after)
      end =
          follow (run initial before) after (run-IsInOrder before)
            (rw polls ([], sym (append-nil due)))

      read_off : Extends due (run (run initial before) after).ran
      read_off = let (rest, e) = rw tests at end in (rest, sym (append-nil _) ∙ e)

  -- The steps of the loop's thread in one round in which no handler and no functor does anything to
  -- the loop.
  abbrev pub quiet_calls : List F → List (Action F)
  quiet_calls [] = finish ∷ []
  quiet_calls (f ∷ fs) = run_next [] false ∷ quiet_calls fs

  abbrev pub quiet_round : System F → List (Action F)
  quiet_round s = poll_returns ∷ drain ∷ handled ∷ swap ∷ quiet_calls s.loop.pending_functors

  -- From a poll that returns, a quiet round gets the loop back to its test, with all that was
  -- pending run and nothing pending.
  pub quiet_round_lem :
      (s : System F)
      → s.phase ≡ polling
      → ((run s (quiet_round s)).phase ≡ testing)
        × ((run s (quiet_round s)).loop.pending_functors ≡ [])
        × ((run s (quiet_round s)).ran ≡ s.ran ++ s.loop.pending_functors)
  unfolding run step loop_step handle_read queue_all
  quiet_round_lem s e = rw e (calls _ s.loop.pending_functors refl refl)
    where
      calls :
          (t : System F) (fs : List F)
          → t.phase ≡ calling fs
          → t.loop.pending_functors ≡ []
          → ((run t (quiet_calls fs)).phase ≡ testing)
            × ((run t (quiet_calls fs)).loop.pending_functors ≡ [])
            × ((run t (quiet_calls fs)).ran ≡ t.ran ++ fs)
      calls t [] e n = rw e (refl, n, sym (append-nil t.ran))
      calls t (f ∷ fs) e n = rw e (
          let (a, b, c) = calls (loop_step (calling (f ∷ fs)) (run_next [] false) t) fs refl n in
          (a, b, c ∙ append_assoc t.ran (f ∷ []) fs))
