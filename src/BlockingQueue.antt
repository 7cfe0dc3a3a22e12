-- ===== src/BlockingQueue.antt =====
-- base/BlockingQueue.h, with addMsgToQueue of component/ComponentBase.cpp: a queue that threads
-- share. An operation is what a thread does under the mutex; `none` is a thread that waits.
mod Tests
use toy_basket.Prelude.{
  ℕ, ◌+◌, List, [], ◌∷◌, ◌++◌, Bool, true, false, Option, none, some, ◌>>=◌, if◌then◌else◌, ◌≡◌,
  refl, sym, ap, ◌∙◌, length, append_assoc, append-nil, some_injective,
}

-- What the threads do, one after the other: a put, or a take that does not wait.
pub data Step {ℓ} (A : Type ℓ) : Type ℓ where
  puts : A → Step A
  takes : Step A

module _ {ℓ} {A : Type ℓ} where
  pub put : List A → A → List A
  put queue x = queue ++ x ∷ []

  pub take_front : List A → Option (A × List A)
  take_front [] = none
  take_front (x ∷ queue) = some (x, queue)

  pub size : List A → ℕ
  size queue = length queue

  -- `addMsgToQueue`, with `inited_`.
  pub add_msg_to_queue : Bool → List A → A → List A
  add_msg_to_queue inited queue msg = if inited then put queue msg else queue

  -- The queue and all that was taken from it.
  pub run : List A → List A → List (Step A) → Option (List A × List A)
  run queue taken [] = some (queue, taken)
  run queue taken (puts x ∷ rest) = run (put queue x) taken rest
  run queue taken (takes ∷ rest) =
      take_front queue >>= λ front. run front.1 (taken ++ front.0 ∷ []) rest

  abbrev pub all_put : List (Step A) → List A
  all_put [] = []
  all_put (puts x ∷ rest) = x ∷ all_put rest
  all_put (takes ∷ rest) = all_put rest

  -- In every order of the puts and takes of the threads that does not take from an empty queue, what
  -- was taken and then what is left is what was taken and there before, and then what was put, in the
  -- order of the puts.
  pub run_lem :
      (queue taken queue' taken' : List A) (steps : List (Step A))
      → run queue taken steps ≡ some (queue', taken')
      → taken' ++ queue' ≡ (taken ++ queue) ++ all_put steps
  unfolding run put take_front
  run_lem queue taken queue' taken' [] e =
      ap (λ o. o.1 ++ o.0) (sym (some_injective e)) ∙ sym (append-nil (taken ++ queue))
  run_lem queue taken queue' taken' (puts x ∷ rest) e =
      run_lem (queue ++ x ∷ []) taken queue' taken' rest e
      ∙ ap (λ xs. xs ++ all_put rest) (sym (append_assoc taken queue (x ∷ [])))
      ∙ append_assoc (taken ++ queue) (x ∷ []) (all_put rest)
  run_lem [] taken queue' taken' (takes ∷ rest) e = cc
  run_lem (x ∷ queue) taken queue' taken' (takes ∷ rest) e =
      run_lem queue (taken ++ x ∷ []) queue' taken' rest e
      ∙ ap (λ xs. xs ++ all_put rest) (append_assoc taken (x ∷ []) queue)
