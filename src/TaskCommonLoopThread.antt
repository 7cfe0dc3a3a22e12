-- ===== src/TaskCommonLoopThread.antt =====
-- src/task/TaskCommonLoopThread.cpp and TaskCommonLoopThread.h: a thread that runs a callback in a
-- loop, and the thread that owns it. Each read of `exiting_` sees the last write, and a callback
-- returns.
mod Exited
mod Stop
mod Tests
use toy_basket.Prelude.{
  ℕ, suc, List, [], ◌∷◌, Bool, true, false, if◌then◌else◌, Option, none, some, ◌>>=◌,
}

-- How far the thread is in `threadFunc`: not created, before it sets `started_`, at the test of its
-- loop, behind the test and before the end of the callback, behind the loop, and at its end.
pub data Place : Type 0 where
  absent : Place
  launched : Place
  testing : Place
  calling : Place
  behind : Place
  ended : Place

-- What the owner does: nothing, or it waits in `stopLoop` for the end of the thread, as part of the
-- destructor or not; or the object is destroyed.
pub data Owner : Type 0 where
  idle : Owner
  joining : Bool → Owner
  gone : Owner

-- `callback` says that there is one; `rounds` counts how often it has run to its end.
pub record TaskCommonLoopThread : Type 0 where
  pub exiting : Bool
  pub started : Bool
  pub callback : Bool
  pub thread : Place
  pub joinable : Bool
  pub owner : Owner
  pub rounds : ℕ

abbrev pub new_loop_thread : Bool → TaskCommonLoopThread
new_loop_thread callback = record {
  exiting = false;
  started = false;
  callback = callback;
  thread = absent;
  joinable = false;
  owner = idle;
  rounds = 0;
}

-- A thread assigned to a thread that can be joined ends the process.
abbrev pub start_loop : TaskCommonLoopThread → Option TaskCommonLoopThread
start_loop t =
    if t.started
    then some t
    else if t.joinable
    then none
    else some (record t { thread = launched; joinable = true })

-- `stopLoop` up to its join.
abbrev pub stop_loop : Bool → TaskCommonLoopThread → TaskCommonLoopThread
stop_loop destroys t =
    if t.joinable
    then record t { exiting = true; started = false; owner = joining destroys }
    else record t { exiting = true; started = false; owner = if destroys then gone else idle }

-- `join` returns when the thread has ended.
abbrev pub has_ended : Place → Bool
has_ended absent = false
has_ended launched = false
has_ended testing = false
has_ended calling = false
has_ended behind = false
has_ended ended = true

abbrev pub join : Bool → TaskCommonLoopThread → TaskCommonLoopThread
join destroys t =
    if has_ended t.thread
    then record t { joinable = false; owner = if destroys then gone else idle }
    else t

-- The test of `exiting_`, and that of the callback, which never changes.
abbrev pub test : TaskCommonLoopThread → TaskCommonLoopThread
test t =
    if t.exiting
    then record t { thread = behind }
    else if t.callback
    then record t { thread = calling }
    else record t { thread = behind }

-- The next step of `threadFunc`. The test of the loop is one step and the callback another: the owner
-- may set `exiting_` between them.
abbrev pub proceed : Place → TaskCommonLoopThread → TaskCommonLoopThread
proceed absent t = t
proceed launched t = record t { thread = testing; started = true }
proceed testing t = test t
proceed calling t = record t { thread = testing; rounds = suc t.rounds }
proceed behind t = record t { thread = ended; started = false }
proceed ended t = t

-- The calls of the owner, which it makes when it is idle, the progress of a call that waits, and the
-- steps of the thread.
pub data Action : Type 0 where
  starts : Action
  stops : Action
  destroys : Action
  goes_on : Action
  proceeds : Action

abbrev pub call :
    Owner
    → (TaskCommonLoopThread → Option TaskCommonLoopThread)
    → TaskCommonLoopThread
    → Option TaskCommonLoopThread
call idle operation t = operation t
call (joining b) operation t = some t
call gone operation t = some t

abbrev pub wait : Owner → TaskCommonLoopThread → TaskCommonLoopThread
wait idle t = t
wait (joining b) t = join b t
wait gone t = t

pub step : Action → TaskCommonLoopThread → Option TaskCommonLoopThread
step starts t = call t.owner start_loop t
step stops t = call t.owner (λ u. some (stop_loop false u)) t
step destroys t = call t.owner (λ u. some (stop_loop true u)) t
step goes_on t = some (wait t.owner t)
step proceeds t = some (proceed t.thread t)

pub run : List Action → TaskCommonLoopThread → Option TaskCommonLoopThread
run [] t = some t
run (a ∷ as') t = step a t >>= run as'
