-- ===== src/TaskEventLoopThread/Tests.antt =====
-- A thread that is started and stopped in the order that its authors have in mind, and in others.
use toy_basket.Prelude.{[], ◌∷◌, true, false, some, none, Bool, if◌then◌else◌, ◌≡◌, ◌⊎◌, refl}
use toy_basket.TaskEventLoopThread.{
  idle, gone, starts, stops, destroys, goes_on, proceeds, run, step,
}
use toy_basket.TaskEventLoopThread.Valid.{IsValid, run-IsValid}
use toy_basket.TaskEventLoopThread.Stuck.{
  before_loop, in_loop, just_started, over, early_stop_hangs, ended_for_good,
}

run-IsValid_example : IsValid (just_started (true ∷ []))
unfolding run step
run-IsValid_example = run-IsValid (starts ∷ proceeds ∷ goes_on ∷ []) (just_started (true ∷ [])) refl

early_stop_hangs_example :
    (run (stops ∷ proceeds ∷ goes_on ∷ proceeds ∷ goes_on ∷ []) (just_started (true ∷ []))
      ≡ some (before_loop false (true ∷ [])))
    ⊎ (run (stops ∷ proceeds ∷ goes_on ∷ proceeds ∷ goes_on ∷ []) (just_started (true ∷ []))
        ≡ some (in_loop false (true ∷ [])))
early_stop_hangs_example =
    early_stop_hangs false (true ∷ []) (proceeds ∷ goes_on ∷ proceeds ∷ goes_on ∷ []) tt

ended_for_good_example :
    (exiting' : Bool) × (run (stops ∷ starts ∷ []) (over false true true idle (true ∷ []))
      ≡ some (over exiting' true true idle (true ∷ false ∷ [])))
    × (step destroys (over exiting' true true idle (true ∷ false ∷ []))
        ≡ (if true then none else some (over true true true gone (true ∷ false ∷ []))))
ended_for_good_example = ended_for_good false true true (true ∷ []) (stops ∷ starts ∷ []) tt
