-- ===== src/TaskEventLoopThread/Stop.antt =====
-- src/task/TaskEventLoopThread.cpp: `stopLoop` returns when the thread is in its loop.
use toy_basket.Prelude.{ℕ, suc, List, [], ◌∷◌, Bool, true, false, if◌then◌else◌}
use toy_basket.TaskEventLoopThread.{
  looping, ended, idle, joining, gone, TaskEventLoopThread, Action, starts, stops, destroys,
  goes_on, proceeds, quits_itself,
}

-- No call of the owner begins; how many steps the thread takes.
abbrev pub NoCalls : List Action → Type 0
NoCalls [] = Unit
NoCalls (starts ∷ as') = ⊥
NoCalls (stops ∷ as') = ⊥
NoCalls (destroys ∷ as') = ⊥
NoCalls (goes_on ∷ as') = NoCalls as'
NoCalls (proceeds ∷ as') = NoCalls as'
NoCalls (quits_itself ∷ as') = NoCalls as'

abbrev pub steps_in : List Action → ℕ
steps_in [] = 0
steps_in (starts ∷ as') = steps_in as'
steps_in (stops ∷ as') = steps_in as'
steps_in (destroys ∷ as') = steps_in as'
steps_in (goes_on ∷ as') = steps_in as'
steps_in (proceeds ∷ as') = suc (steps_in as')
steps_in (quits_itself ∷ as') = steps_in as'

module _ (exiting : Bool) (returned : List Bool) where
  -- The thread is in its loop, which the owner has left alone, or is over and joined.
  abbrev pub running : TaskEventLoopThread
  running = record {
    loop_set = true;
    exiting = exiting;
    inited = true;
    quit = false;
    thread = looping;
    joinable = true;
    owner = idle;
    returned = returned;
  }

module _ (destroying : Bool) (returned : List Bool) where
  abbrev asked : TaskEventLoopThread
  asked = record (running true returned) { quit = true; owner = joining destroying }

  abbrev pub joined : TaskEventLoopThread
  joined = record asked {
    loop_set = false;
    thread = ended;
    joinable = false;
    owner = if destroying then gone else idle;
  }
