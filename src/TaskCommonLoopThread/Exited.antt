-- ===== src/TaskCommonLoopThread/Exited.antt =====
-- src/task/TaskCommonLoopThread.cpp: single steps once `exiting_` is set.
use toy_basket.Prelude.{
  ℕ, suc, ◌≤◌, Bool, true, false, if◌then◌else◌, Option, none, some, ◌>>=◌, ◌≡◌, refl, arith,
}
use toy_basket.TaskCommonLoopThread.{
  Place, absent, launched, testing, calling, behind, ended, Owner, idle, joining, gone,
  TaskCommonLoopThread, start_loop, stop_loop, join, proceed, Action, starts, stops, destroys,
  goes_on, proceeds, call, wait, step,
}

-- How often the callback has run when a call that the thread has let pass its test is at its end.
abbrev pub calls_after : Place → ℕ → ℕ
calls_after absent n = n
calls_after launched n = n
calls_after testing n = n
calls_after calling n = suc n
calls_after behind n = n
calls_after ended n = n

le-calls_after : (p : Place) (n : ℕ) → n ≤ calls_after p n
le-calls_after absent n = omega arith
le-calls_after launched n = omega arith
le-calls_after testing n = omega arith
le-calls_after calling n = omega arith
le-calls_after behind n = omega arith
le-calls_after ended n = omega arith

-- `exiting_` is set, and the callback has run at least `low` times and will have run at most `high`.
abbrev pub Exited : ℕ → ℕ → Option TaskCommonLoopThread → Type 0
Exited low high none = Unit
Exited low high (some t) =
    (t.exiting ≡ true) × (low ≤ t.rounds) × (calls_after t.thread t.rounds ≤ high)

Exited-weaken :
    (low low' high' high : ℕ) (o : Option TaskCommonLoopThread)
    → low ≤ low'
    → high' ≤ high
    → Exited low' high' o
    → Exited low high o
Exited-weaken low low' high' high none h k e = tt
Exited-weaken low low' high' high (some t) h k (e, f, g) =
    (e, omega (arith, f, h), omega (arith, g, k))

module _ (n : ℕ) (started callback joinable : Bool) where
  abbrev pub of : Place → Owner → TaskCommonLoopThread
  of thread owner = record {
    exiting = true;
    started = started;
    callback = callback;
    thread = thread;
    joinable = joinable;
    owner = owner;
    rounds = n;
  }

-- What a step of a thread in such a state may bring about.
abbrev pub Kept : ℕ → Place → Option TaskCommonLoopThread → Type 0
Kept n p = Exited n (calls_after p n)

same : (n : ℕ) (s c j : Bool) (p : Place) (o : Owner) → Kept n p (some (of n s c j p o))
same n s c j p o = (refl, omega arith, omega arith)

start-Exited : (n : ℕ) (s c j : Bool) (p : Place) → Kept n p (start_loop (of n s c j p idle))
start-Exited n true c j p = same n true c j p idle
start-Exited n false c true p = tt
start-Exited n false c false p = (refl, omega arith, le-calls_after p n)

stop-Exited :
    (b : Bool) (n : ℕ) (s c j : Bool) (p : Place)
    → Kept n p (some (stop_loop b (of n s c j p idle)))
stop-Exited b n s c true p = same n false c true p (joining b)
stop-Exited b n s c false p = same n false c false p (if b then gone else idle)

join-Exited :
    (b : Bool) (n : ℕ) (s c j : Bool) (p : Place)
    → Kept n p (some (join b (of n s c j p (joining b))))
join-Exited b n s c j absent = same n s c j absent (joining b)
join-Exited b n s c j launched = same n s c j launched (joining b)
join-Exited b n s c j testing = same n s c j testing (joining b)
join-Exited b n s c j calling = same n s c j calling (joining b)
join-Exited b n s c j behind = same n s c j behind (joining b)
join-Exited b n s c j ended = same n s c false ended (if b then gone else idle)

call-Exited :
    (o : Owner) (n : ℕ) (s c j : Bool) (p : Place)
    (operation : TaskCommonLoopThread → Option TaskCommonLoopThread)
    → Kept n p (operation (of n s c j p idle))
    → Kept n p (call o operation (of n s c j p o))
call-Exited idle n s c j p operation h = h
call-Exited (joining b) n s c j p operation h = same n s c j p (joining b)
call-Exited gone n s c j p operation h = same n s c j p gone

wait-Exited :
    (o : Owner) (n : ℕ) (s c j : Bool) (p : Place) → Kept n p (some (wait o (of n s c j p o)))
wait-Exited idle n s c j p = same n s c j p idle
wait-Exited (joining b) n s c j p = join-Exited b n s c j p
wait-Exited gone n s c j p = same n s c j p gone

proceed-Exited :
    (n : ℕ) (s c j : Bool) (p : Place) (o : Owner) → Kept n p (some (proceed p (of n s c j p o)))
proceed-Exited n s c j absent o = same n s c j absent o
proceed-Exited n s c j launched o = (refl, omega arith, omega arith)
proceed-Exited n s c j testing o = (refl, omega arith, omega arith)
proceed-Exited n s c j calling o = (refl, omega arith, omega arith)
proceed-Exited n s c j behind o = (refl, omega arith, omega arith)
proceed-Exited n s c j ended o = same n s c j ended o

pub step-Exited :
    (a : Action) (n : ℕ) (s c j : Bool) (p : Place) (o : Owner) → Kept n p (step a (of n s c j p o))
unfolding step
step-Exited starts n s c j p o = call-Exited o n s c j p start_loop (start-Exited n s c j p)
step-Exited stops n s c j p o =
    call-Exited o n s c j p (λ u. some (stop_loop false u)) (stop-Exited false n s c j p)
step-Exited destroys n s c j p o =
    call-Exited o n s c j p (λ u. some (stop_loop true u)) (stop-Exited true n s c j p)
step-Exited goes_on n s c j p o = wait-Exited o n s c j p
step-Exited proceeds n s c j p o = proceed-Exited n s c j p o

pub then-Exited :
    (low high : ℕ) (o : Option TaskCommonLoopThread)
    (k : TaskCommonLoopThread → Option TaskCommonLoopThread)
    → ((t : TaskCommonLoopThread)
        → t.exiting ≡ true
        → Exited t.rounds (calls_after t.thread t.rounds) (k t))
    → Exited low high o
    → Exited low high (o >>= k)
then-Exited low high none k h e = tt
then-Exited low high (some t) k h (e, f, g) =
    Exited-weaken low t.rounds (calls_after t.thread t.rounds) high (k t) f g (h t e)
