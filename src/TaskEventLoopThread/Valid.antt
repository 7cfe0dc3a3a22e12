-- ===== src/TaskEventLoopThread/Valid.antt =====
-- src/task/TaskEventLoopThread.cpp: what holds at every moment of a thread with an event loop.
use toy_basket.Prelude.{
  List, [], ◌∷◌, Bool, true, false, Option, none, some, ◌>>=◌, ◌≡◌, refl, ◌∙◌, subst,
}
use toy_basket.TaskEventLoopThread.{
  Place, absent, starting, published, looping, left, ended, Owner, idle, waiting, joining, gone,
  TaskEventLoopThread, new_task, start_loop, look, stop_loop, join, proceed, quit_itself, Action,
  starts, stops, destroys, goes_on, proceeds, quits_itself, call, wait, step, run,
}

-- The loop of the thread is alive; it has been published; the thread is not at its end.
abbrev pub is_live : Place → Bool
is_live absent = false
is_live starting = false
is_live published = true
is_live looping = true
is_live left = true
is_live ended = false

abbrev pub was_live : Place → Bool
was_live absent = false
was_live starting = false
was_live published = true
was_live looping = true
was_live left = true
was_live ended = true

-- Whether the owner may hold a thread to join.
abbrev pub MayJoin : Place → Bool → Type 0
MayJoin absent joinable = joinable ≡ false
MayJoin starting joinable = joinable ≡ true
MayJoin published joinable = joinable ≡ true
MayJoin looping joinable = joinable ≡ true
MayJoin left joinable = joinable ≡ true
MayJoin ended joinable = Unit

abbrev pub MayWait : Owner → Bool → Bool → Type 0
MayWait idle joinable exiting = Unit
MayWait waiting joinable exiting = joinable ≡ true
MayWait (joining b) joinable exiting = (joinable ≡ true) × (exiting ≡ true)
MayWait gone joinable exiting = (joinable ≡ false) × (exiting ≡ true)

-- `loop_` is set just while the loop is alive, `inited_` from when it was published; a thread that
-- runs can be joined; and an owner that waits for a thread has one.
pub record IsValid (t : TaskEventLoopThread) : Type 0 where
  pub pointer : t.loop_set ≡ is_live t.thread
  pub flag : t.inited ≡ was_live t.thread
  pub may_join : MayJoin t.thread t.joinable
  pub may_wait : MayWait t.owner t.joinable t.exiting

abbrev Holds : Option TaskEventLoopThread → Type 0
Holds none = Unit
Holds (some t) = IsValid t

proceed-IsValid :
    (loop_set exiting inited quit joinable : Bool) (thread : Place) (owner : Owner)
    (returned : List Bool)
    → let t : TaskEventLoopThread = record {
      loop_set = loop_set;
      exiting = exiting;
      inited = inited;
      quit = quit;
      thread = thread;
      joinable = joinable;
      owner = owner;
      returned = returned;
    } in
      IsValid t → IsValid (proceed thread t)
proceed-IsValid l e i q j absent o r v = v
proceed-IsValid l e i q j starting o r v = record {
  pointer = refl;
  flag = refl;
  may_join = v.may_join;
  may_wait = v.may_wait;
}
proceed-IsValid l e i q j published o r v = record {
  pointer = v.pointer;
  flag = v.flag;
  may_join = v.may_join;
  may_wait = v.may_wait;
}
proceed-IsValid l e i true j looping o r v = record {
  pointer = v.pointer;
  flag = v.flag;
  may_join = v.may_join;
  may_wait = v.may_wait;
}
proceed-IsValid l e i false j looping o r v = v
proceed-IsValid l e i q j left o r v = record {
  pointer = refl;
  flag = v.flag;
  may_join = tt;
  may_wait = v.may_wait;
}
proceed-IsValid l e i q j ended o r v = v

quit_itself-IsValid :
    (t : TaskEventLoopThread) (place : Place) → IsValid t → IsValid (quit_itself place t)
quit_itself-IsValid t absent v = v
quit_itself-IsValid t starting v = v
quit_itself-IsValid t published v = v
quit_itself-IsValid t looping v = record {
  pointer = v.pointer;
  flag = v.flag;
  may_join = v.may_join;
  may_wait = v.may_wait;
}
quit_itself-IsValid t left v = v
quit_itself-IsValid t ended v = v

module _ (loop_set exiting inited quit joinable : Bool) (thread : Place)
    (returned : List Bool) where
  abbrev of : Owner → TaskEventLoopThread
  of owner = record {
    loop_set = loop_set;
    exiting = exiting;
    inited = inited;
    quit = quit;
    thread = thread;
    joinable = joinable;
    owner = owner;
    returned = returned;
  }

not_live : (p : Place) → false ≡ was_live p → is_live p ≡ false
not_live absent e = refl
not_live starting e = refl
not_live published e = cc
not_live looping e = cc
not_live left e = cc
not_live ended e = refl

live_joinable : (p : Place) (j : Bool) → true ≡ is_live p → MayJoin p j → j ≡ true
live_joinable absent j e h = cc
live_joinable starting j e h = h
live_joinable published j e h = h
live_joinable looping j e h = h
live_joinable left j e h = h
live_joinable ended j e h = cc

start_loop-IsValid :
    (l e i q j : Bool) (p : Place) (r : List Bool)
    → IsValid (of l e i q j p r idle)
    → Holds (start_loop (of l e i q j p r idle))
start_loop-IsValid l e true q j p r v = record {
  pointer = v.pointer;
  flag = v.flag;
  may_join = v.may_join;
  may_wait = tt;
}
start_loop-IsValid l e false q true p r v = tt
start_loop-IsValid l e false q false p r v = record {
  pointer = v.pointer ∙ not_live p v.flag;
  flag = refl;
  may_join = refl;
  may_wait = refl;
}

look-IsValid :
    (l e i q j : Bool) (p : Place) (r : List Bool)
    → IsValid (of l e i q j p r waiting)
    → IsValid (look (of l e i q j p r waiting))
look-IsValid true e i q j p r v = record {
  pointer = v.pointer;
  flag = v.flag;
  may_join = v.may_join;
  may_wait = tt;
}
look-IsValid false e i q j p r v = v

stop_loop-IsValid :
    (b l e i q j : Bool) (p : Place) (r : List Bool)
    → IsValid (of l e i q j p r idle)
    → Holds (stop_loop b (of l e i q j p r idle))
stop_loop-IsValid b true e i q j p r v = record {
  pointer = v.pointer;
  flag = v.flag;
  may_join = v.may_join;
  may_wait = (live_joinable p j v.pointer v.may_join, refl);
}
stop_loop-IsValid true false e i q true p r v = tt
stop_loop-IsValid true false e i q false p r v = record {
  pointer = v.pointer;
  flag = v.flag;
  may_join = v.may_join;
  may_wait = (refl, refl);
}
stop_loop-IsValid false false e i q j p r v = record {
  pointer = v.pointer;
  flag = v.flag;
  may_join = v.may_join;
  may_wait = tt;
}

join-IsValid :
    (b l e i q j : Bool) (p : Place) (r : List Bool)
    → IsValid (of l e i q j p r (joining b))
    → Holds (join b (of l e i q j p r (joining b)))
join-IsValid b l e i q false p r v = tt
join-IsValid b l e i q true absent r v = v
join-IsValid b l e i q true starting r v = v
join-IsValid b l e i q true published r v = v
join-IsValid b l e i q true looping r v = v
join-IsValid b l e i q true left r v = v
join-IsValid true l e i q true ended r v = record {
  pointer = v.pointer;
  flag = v.flag;
  may_join = tt;
  may_wait = (refl, v.may_wait.1);
}
join-IsValid false l e i q true ended r v = record {
  pointer = v.pointer;
  flag = v.flag;
  may_join = tt;
  may_wait = tt;
}

call-IsValid :
    (o : Owner) (l e i q j : Bool) (p : Place) (r : List Bool)
    (operation : TaskEventLoopThread → Option TaskEventLoopThread)
    → (IsValid (of l e i q j p r idle) → Holds (operation (of l e i q j p r idle)))
    → IsValid (of l e i q j p r o)
    → Holds (call o operation (of l e i q j p r o))
call-IsValid idle l e i q j p r operation h v = h v
call-IsValid waiting l e i q j p r operation h v = v
call-IsValid (joining b) l e i q j p r operation h v = v
call-IsValid gone l e i q j p r operation h v = v

wait-IsValid :
    (o : Owner) (l e i q j : Bool) (p : Place) (r : List Bool)
    → IsValid (of l e i q j p r o)
    → Holds (wait o (of l e i q j p r o))
wait-IsValid idle l e i q j p r v = v
wait-IsValid waiting l e i q j p r v = look-IsValid l e i q j p r v
wait-IsValid (joining b) l e i q j p r v = join-IsValid b l e i q j p r v
wait-IsValid gone l e i q j p r v = v

step-IsValid : (a : Action) (t : TaskEventLoopThread) → IsValid t → Holds (step a t)
unfolding step
step-IsValid starts t v =
    call-IsValid t.owner t.loop_set t.exiting t.inited t.quit t.joinable t.thread t.returned
      start_loop
      (start_loop-IsValid t.loop_set t.exiting t.inited t.quit t.joinable t.thread t.returned) v
step-IsValid stops t v =
    call-IsValid t.owner t.loop_set t.exiting t.inited t.quit t.joinable t.thread t.returned
      (stop_loop false)
      (stop_loop-IsValid false t.loop_set t.exiting t.inited t.quit t.joinable t.thread t.returned)
      v
step-IsValid destroys t v =
    call-IsValid t.owner t.loop_set t.exiting t.inited t.quit t.joinable t.thread t.returned
      (stop_loop true)
      (stop_loop-IsValid true t.loop_set t.exiting t.inited t.quit t.joinable t.thread t.returned) v
step-IsValid goes_on t v =
    wait-IsValid t.owner t.loop_set t.exiting t.inited t.quit t.joinable t.thread t.returned v
step-IsValid proceeds t v =
    proceed-IsValid t.loop_set t.exiting t.inited t.quit t.joinable t.thread t.owner t.returned v
step-IsValid quits_itself t v = quit_itself-IsValid t t.thread v

then-Holds :
    (o : Option TaskEventLoopThread) (k : TaskEventLoopThread → Option TaskEventLoopThread)
    → ((t : TaskEventLoopThread) → IsValid t → Holds (k t))
    → Holds o
    → Holds (o >>= k)
then-Holds none k h v = tt
then-Holds (some t) k h v = h t v

run-Holds : (as' : List Action) (t : TaskEventLoopThread) → IsValid t → Holds (run as' t)
unfolding run
run-Holds [] t v = v
run-Holds (a ∷ as') t v = then-Holds (step a t) (run as') (run-Holds as') (step-IsValid a t v)

-- After any steps of the owner and of the thread from the constructor on that have not ended the
-- process: `loop_` is set just while the loop of the thread is alive; `inited_` says that it has been
-- set; a thread that runs can be joined; and an owner that waits for a thread has one.
pub run-IsValid :
    (as' : List Action) (t : TaskEventLoopThread) → run as' new_task ≡ some t → IsValid t
run-IsValid as' t e = subst Holds e (
    run-Holds as' new_task (record { pointer = refl; flag = refl; may_join = refl; may_wait = tt }))
