-- ===== src/BlockingQueue/Tests.antt =====
-- Two threads on one queue.
use toy_basket.Prelude.{List, ℕ, [], ◌∷◌, ◌++◌, ◌≡◌, refl}
use toy_basket.BlockingQueue.{puts, takes, put, run, run_lem, take_front}

abbrev ends : List ℕ
ends = (1 ∷ 2 ∷ []) ++ (3 ∷ [])

run_lem_example : ends ≡ ([] ++ (1 ∷ [])) ++ (2 ∷ 3 ∷ [])
unfolding run put take_front
run_lem_example =
    run_lem (1 ∷ []) [] (3 ∷ []) (1 ∷ 2 ∷ []) (puts 2 ∷ takes ∷ puts 3 ∷ takes ∷ []) refl
