-- ===== src/TaskCommonLoopThread/Tests.antt =====
-- A thread that has run its callback seven times is stopped before the eighth has ended; and
-- started again.
use toy_basket.Prelude.{[], ◌∷◌, true, false, some, ◌≡◌, refl, arith}
use toy_basket.TaskCommonLoopThread.{calling, starts, stops, goes_on, proceeds, run}
use toy_basket.TaskCommonLoopThread.Exited.{Exited}
use toy_basket.TaskCommonLoopThread.Stop.{idles_for_good, joined, owned, stop_loop_returns}

stop_loop_returns_example :
    run
      (stops ∷ proceeds ∷ goes_on ∷ proceeds ∷ proceeds ∷ goes_on ∷ [])
      (owned false true true calling 7)
    ≡ some (joined false true 8)
stop_loop_returns_example =
    stop_loop_returns false false true true calling 7
      (proceeds ∷ goes_on ∷ proceeds ∷ proceeds ∷ []) tt tt (omega arith)

idles_for_good_example :
    Exited 8 8 (run (starts ∷ proceeds ∷ proceeds ∷ proceeds ∷ proceeds ∷ []) (joined false true 8))
idles_for_good_example =
    idles_for_good (starts ∷ proceeds ∷ proceeds ∷ proceeds ∷ proceeds ∷ []) (joined false true 8)
      refl
