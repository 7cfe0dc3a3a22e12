-- ===== src/TaskEventLoopThread.antt =====
-- src/task/TaskEventLoopThread.cpp and TaskEventLoopThread.h: a thread with an event loop, and the
-- thread that owns it. The test of `loop_` in `stopLoop` and the call of `quit` behind it are one step.
mod Valid
mod Stuck
mod Stop
mod Tests
use toy_basket.Prelude.{
  List, [], ◌∷◌, ◌++◌, Bool, true, false, not, if◌then◌else◌, ◌&&◌, Option, none, some, ◌>>=◌,
}

-- How far the thread is in `threadFunc`: not created, before it publishes its loop, before `loop()`,
-- in it, behind it, and at its end.
pub data Place : Type 0 where
  absent : Place
  starting : Place
  published : Place
  looping : Place
  left : Place
  ended : Place

-- What the owner does: nothing, or it waits in `startLoop` for the loop or in `stopLoop` for the end
-- of the thread, in the latter as part of the destructor or not; or the object is destroyed.
pub data Owner : Type 0 where
  idle : Owner
  waiting : Owner
  joining : Bool → Owner
  gone : Owner

-- `loop_set` says that `loop_` is not null; `quit` is `quit_` of the loop of the thread. `returned`
-- are the results of `startLoop`, whether they are a loop.
pub record TaskEventLoopThread : Type 0 where
  pub loop_set : Bool
  pub exiting : Bool
  pub inited : Bool
  pub quit : Bool
  pub thread : Place
  pub joinable : Bool
  pub owner : Owner
  pub returned : List Bool

abbrev pub new_task : TaskEventLoopThread
new_task = record {
  loop_set = false;
  exiting = false;
  inited = false;
  quit = false;
  thread = absent;
  joinable = false;
  owner = idle;
  returned = [];
}

-- `startLoop` up to its wait. A thread assigned to a thread that can be joined ends the process.
abbrev pub start_loop : TaskEventLoopThread → Option TaskEventLoopThread
start_loop t =
    if t.inited
    then some (record t { returned = t.returned ++ t.loop_set ∷ [] })
    else if t.joinable
    then none
    else some (record t { thread = starting; joinable = true; quit = false; owner = waiting })

-- A look at `loop_` in the loop of `startLoop`, which waits on.
abbrev pub look : TaskEventLoopThread → TaskEventLoopThread
look t = if t.loop_set then record t { owner = idle; returned = t.returned ++ true ∷ [] } else t

-- `stopLoop` up to its join.
abbrev pub stop_loop : Bool → TaskEventLoopThread → Option TaskEventLoopThread
stop_loop destroys t =
    if t.loop_set
    then some (record t { exiting = true; quit = true; owner = joining destroys })
    else if destroys
    then (if t.joinable then none else some (record t { exiting = true; owner = gone }))
    else some (record t { exiting = true })

-- `join` returns when the thread has ended; on a thread that cannot be joined it throws.
abbrev pub has_ended : Place → Bool
has_ended absent = false
has_ended starting = false
has_ended published = false
has_ended looping = false
has_ended left = false
has_ended ended = true

abbrev pub join : Bool → TaskEventLoopThread → Option TaskEventLoopThread
join destroys t =
    if not t.joinable
    then none
    else if has_ended t.thread
    then some (record t { joinable = false; owner = if destroys then gone else idle })
    else some t

-- The next step of `threadFunc` and of the loop in it, which begins by resetting `quit_` and ends
-- once that is set.
abbrev pub proceed : Place → TaskEventLoopThread → TaskEventLoopThread
proceed absent t = t
proceed starting t = record t { thread = published; loop_set = true; inited = true }
proceed published t = record t { thread = looping; quit = false }
proceed looping t = if t.quit then record t { thread = left } else t
proceed left t = record t { thread = ended; loop_set = false }
proceed ended t = t

-- A callback in the loop calls `quit()`.
abbrev pub quit_itself : Place → TaskEventLoopThread → TaskEventLoopThread
quit_itself absent t = t
quit_itself starting t = t
quit_itself published t = t
quit_itself looping t = record t { quit = true }
quit_itself left t = t
quit_itself ended t = t

-- The calls of the owner, which it makes when it is idle, the progress of a call that waits, and the
-- steps of the thread.
pub data Action : Type 0 where
  starts : Action
  stops : Action
  destroys : Action
  goes_on : Action
  proceeds : Action
  quits_itself : Action

abbrev pub call :
    Owner
    → (TaskEventLoopThread → Option TaskEventLoopThread)
    → TaskEventLoopThread
    → Option TaskEventLoopThread
call idle operation t = operation t
call waiting operation t = some t
call (joining b) operation t = some t
call gone operation t = some t

abbrev pub wait : Owner → TaskEventLoopThread → Option TaskEventLoopThread
wait idle t = some t
wait waiting t = some (look t)
wait (joining b) t = join b t
wait gone t = some t

pub step : Action → TaskEventLoopThread → Option TaskEventLoopThread
step starts t = call t.owner start_loop t
step stops t = call t.owner (stop_loop false) t
step destroys t = call t.owner (stop_loop true) t
step goes_on t = wait t.owner t
step proceeds t = some (proceed t.thread t)
step quits_itself t = some (quit_itself t.thread t)

pub run : List Action → TaskEventLoopThread → Option TaskEventLoopThread
run [] t = some t
run (a ∷ as') t = step a t >>= run as'
