-- ===== src/TaskEventLoopThread/Stuck.antt =====
-- src/task/TaskEventLoopThread.cpp: schedules after which a call never returns, or the thread never
-- runs again.
use toy_basket.Prelude.{
  List, [], ◌∷◌, ◌++◌, Bool, true, false, if◌then◌else◌, none, some, ◌≡◌, refl, ap, append-nil,
  append_assoc, ◌⊎◌, inl, inr, sym, subst,
}
use toy_basket.TaskEventLoopThread.{
  published, looping, ended, Owner, idle, waiting, joining, gone, TaskEventLoopThread, Action,
  starts, stops, destroys, goes_on, proceeds, quits_itself, step, run,
}

-- No callback in the loop calls `quit()`.
abbrev pub NoneQuits : List Action → Type 0
NoneQuits [] = Unit
NoneQuits (starts ∷ as') = NoneQuits as'
NoneQuits (stops ∷ as') = NoneQuits as'
NoneQuits (destroys ∷ as') = NoneQuits as'
NoneQuits (goes_on ∷ as') = NoneQuits as'
NoneQuits (proceeds ∷ as') = NoneQuits as'
NoneQuits (quits_itself ∷ as') = ⊥

module _ (destroying : Bool) (returned : List Bool) where
  -- The owner joins a thread that is about to enter its loop, or is in it and is not to leave it.
  abbrev pub before_loop : TaskEventLoopThread
  before_loop = record {
    loop_set = true;
    exiting = true;
    inited = true;
    quit = true;
    thread = published;
    joinable = true;
    owner = joining destroying;
    returned = returned;
  }

  abbrev pub in_loop : TaskEventLoopThread
  in_loop = record before_loop { quit = false; thread = looping }

  stays_in : (as' : List Action) → NoneQuits as' → run as' in_loop ≡ some in_loop
  unfolding run step
  stays_in [] h = refl
  stays_in (starts ∷ as') h = stays_in as' h
  stays_in (stops ∷ as') h = stays_in as' h
  stays_in (destroys ∷ as') h = stays_in as' h
  stays_in (goes_on ∷ as') h = stays_in as' h
  stays_in (proceeds ∷ as') h = stays_in as' h
  stays_in (quits_itself ∷ as') h = absurd h

  stays :
      (as' : List Action)
      → NoneQuits as'
      → (run as' before_loop ≡ some before_loop) ⊎ (run as' before_loop ≡ some in_loop)
  unfolding run step
  stays [] h = inl refl
  stays (starts ∷ as') h = stays as' h
  stays (stops ∷ as') h = stays as' h
  stays (destroys ∷ as') h = stays as' h
  stays (goes_on ∷ as') h = stays as' h
  stays (proceeds ∷ as') h = inr (stays_in as' h)
  stays (quits_itself ∷ as') h = absurd h

-- A thread that has published its loop and not entered it, with an owner that has got the loop.
abbrev pub just_started : List Bool → TaskEventLoopThread
just_started returned = record {
  loop_set = true;
  exiting = false;
  inited = true;
  quit = false;
  thread = published;
  joinable = true;
  owner = idle;
  returned = returned;
}

abbrev pub stopping : Bool → Action
stopping destroying = if destroying then destroys else stops

-- If the owner calls stopLoop or the destructor after startLoop has returned and before the thread has
-- entered loop(), then in every schedule in which no callback of the loop calls quit() the owner
-- waits for the thread for ever, and the loop runs on or has not begun.
pub early_stop_hangs :
    (destroying : Bool) (returned : List Bool) (as' : List Action)
    → NoneQuits as'
    → (run (stopping destroying ∷ as') (just_started returned)
        ≡ some (before_loop destroying returned))
      ⊎ (run (stopping destroying ∷ as') (just_started returned)
          ≡ some (in_loop destroying returned))
unfolding run step
early_stop_hangs true returned as' h = stays true returned as' h
early_stop_hangs false returned as' h = stays false returned as' h

-- A thread that has come to its end.
module _ (exiting quit : Bool) where
  abbrev pub over : Bool → Owner → List Bool → TaskEventLoopThread
  over joinable owner returned = record {
    loop_set = false;
    exiting = exiting;
    inited = true;
    quit = quit;
    thread = ended;
    joinable = joinable;
    owner = owner;
    returned = returned;
  }

  -- If the thread has come to its end before the owner has looked for its loop in startLoop, the owner
  -- waits for ever.
  pub missed_loop_hangs :
      (joinable : Bool) (returned : List Bool) (as' : List Action)
      → run as' (over joinable waiting returned) ≡ some (over joinable waiting returned)
  unfolding run step
  missed_loop_hangs joinable returned [] = refl
  missed_loop_hangs joinable returned (starts ∷ as') = missed_loop_hangs joinable returned as'
  missed_loop_hangs joinable returned (stops ∷ as') = missed_loop_hangs joinable returned as'
  missed_loop_hangs joinable returned (destroys ∷ as') = missed_loop_hangs joinable returned as'
  missed_loop_hangs joinable returned (goes_on ∷ as') = missed_loop_hangs joinable returned as'
  missed_loop_hangs joinable returned (proceeds ∷ as') = missed_loop_hangs joinable returned as'
  missed_loop_hangs joinable returned (quits_itself ∷ as') = missed_loop_hangs joinable returned as'

-- The owner does not destroy the object; how often it calls `startLoop`.
abbrev pub NoneDestroys : List Action → Type 0
NoneDestroys [] = Unit
NoneDestroys (starts ∷ as') = NoneDestroys as'
NoneDestroys (stops ∷ as') = NoneDestroys as'
NoneDestroys (destroys ∷ as') = ⊥
NoneDestroys (goes_on ∷ as') = NoneDestroys as'
NoneDestroys (proceeds ∷ as') = NoneDestroys as'
NoneDestroys (quits_itself ∷ as') = NoneDestroys as'

abbrev pub nulls : List Action → List Bool
nulls [] = []
nulls (starts ∷ as') = false ∷ nulls as'
nulls (stops ∷ as') = nulls as'
nulls (destroys ∷ as') = nulls as'
nulls (goes_on ∷ as') = nulls as'
nulls (proceeds ∷ as') = nulls as'
nulls (quits_itself ∷ as') = nulls as'

-- Once the thread has come to its end and the owner is idle, then however the owner calls startLoop
-- and stopLoop, no thread is created again and every startLoop returns null. If the thread has not
-- been joined, which stopLoop does not make up for, the destructor ends the process.
pub ended_for_good :
    (exiting quit joinable : Bool) (returned : List Bool) (as' : List Action)
    → NoneDestroys as'
    → (exiting' : Bool) × (run as' (over exiting quit joinable idle returned)
        ≡ some (over exiting' quit joinable idle (returned ++ nulls as')))
      × (step destroys (over exiting' quit joinable idle (returned ++ nulls as')) ≡ (
          if joinable then none else some (over true quit joinable gone (returned ++ nulls as'))))
unfolding run step
ended_for_good exiting quit joinable returned [] h = (
  exiting,
  ap (λ rs. some (over exiting quit joinable idle rs)) (sym (append-nil returned)),
  refl,
)
ended_for_good exiting quit joinable returned (starts ∷ as') h =
    subst
      (λ rs.
        (exiting' : Bool) × (run as' (over exiting quit joinable idle (returned ++ false ∷ []))
          ≡ some (over exiting' quit joinable idle rs))
        × (step destroys (over exiting' quit joinable idle rs)
            ≡ (if joinable then none else some (over true quit joinable gone rs))))
      (append_assoc returned (false ∷ []) (nulls as'))
      (ended_for_good exiting quit joinable (returned ++ false ∷ []) as' h)
ended_for_good exiting quit joinable returned (stops ∷ as') h =
    ended_for_good true quit joinable returned as' h
ended_for_good exiting quit joinable returned (destroys ∷ as') h = absurd h
ended_for_good exiting quit joinable returned (goes_on ∷ as') h =
    ended_for_good exiting quit joinable returned as' h
ended_for_good exiting quit joinable returned (proceeds ∷ as') h =
    ended_for_good exiting quit joinable returned as' h
ended_for_good exiting quit joinable returned (quits_itself ∷ as') h =
    ended_for_good exiting quit joinable returned as' h
