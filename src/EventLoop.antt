-- ===== src/EventLoop.antt =====
-- communication/EventLoop.cpp: the loop, its pending functors and the eventfd that wakes it. The
-- loop's thread and the threads that call `queueInLoop` or `quit` take turns; an `Action` is one
-- step of one of them, as large as the code between two accesses to shared data.
pub mod Wakeup
pub mod Order
pub mod Rounds
mod Tests
use toy_basket.Prelude.{
  ℕ, suc, ◌+◌, ◌-◌, ◌^◌, List, [], ◌∷◌, ◌++◌, Bool, true, false, not, ◌||◌, ltb, if◌then◌else◌,
}

-- `looping_`, `quit_`, `eventHandling_`, `callingPendingFunctors_`, `pendingFunctors_`, and the
-- counter behind `wakeupFd_`.
pub record EventLoop {ℓ} (F : Type ℓ) : Type ℓ where
  pub looping : Bool
  pub quit : Bool
  pub event_handling : Bool
  pub calling_pending_functors : Bool
  pub pending_functors : List F
  pub wakeups : ℕ

-- Where the loop's thread stands. `calling` holds the functors that `doPendingFunctors` has taken
-- and not yet run.
pub data Phase {ℓ} (F : Type ℓ) : Type ℓ where
  outside : Phase F
  testing : Phase F
  polling : Phase F
  handling : Phase F
  starting : Phase F
  calling : List F → Phase F

-- The whole system: `waking` threads have changed the loop and have not called `wakeup` yet. What
-- has been queued and what has run, in order, is kept for the statements.
pub record System {ℓ} (F : Type ℓ) : Type ℓ where
  pub loop : EventLoop F
  pub phase : Phase F
  pub waking : ℕ
  pub queued : List F
  pub ran : List F

module _ {ℓ} {F : Type ℓ} where
  -- The constructor of the class.
  abbrev pub created : EventLoop F
  created = record {
    looping = false;
    quit = false;
    event_handling = false;
    calling_pending_functors = false;
    pending_functors = [];
    wakeups = 0;
  }

  abbrev pub initial : System F
  initial = record { loop = created; phase = outside; waking = 0; queued = []; ran = [] }

  -- `wakeup`: a write of 1 to the eventfd, which fails if the counter would reach 2^64 - 1.
  pub wakeup : EventLoop F → EventLoop F
  wakeup l = if ltb l.wakeups (2 ^ 64 - 2) then record l { wakeups = l.wakeups + 1 } else l

  -- `handleRead`: a read of the eventfd, which sets it to 0.
  pub handle_read : EventLoop F → EventLoop F
  handle_read l = record l { wakeups = 0 }

  -- The locked part of `queueInLoop`.
  abbrev pub push_functor : EventLoop F → F → EventLoop F
  push_functor l f = record l { pending_functors = l.pending_functors ++ f ∷ [] }

  -- `queueInLoop`, called in the loop's thread or in another.
  pub queue_in_loop : Bool → EventLoop F → F → EventLoop F
  queue_in_loop in_loop_thread l f =
      if not in_loop_thread || l.calling_pending_functors
      then wakeup (push_functor l f)
      else push_functor l f

  -- A functor that queues others while it runs in the loop's thread.
  pub queue_all : EventLoop F → List F → EventLoop F
  queue_all l [] = l
  queue_all l (f ∷ fs) = queue_all (queue_in_loop true l f) fs

-- One step of one thread.
pub data Action {ℓ} (F : Type ℓ) : Type ℓ where
  -- another thread: `queueInLoop` up to the end of its lock, `quit_ = true`, and `wakeup`
  push : F → Action F
  set_quit : Action F
  wake : Action F
  -- the loop's thread: a call of `queueInLoop` outside `loop`, the start of `loop`, the test of
  -- `while`, the return of `poll`, the wake-up handler, other handlers, the end of the handlers
  early_queue : F → Action F
  start : Action F
  test : Action F
  poll_returns : Action F
  drain : Action F
  handler_queues : F → Action F
  handler_quits : Action F
  handled : Action F
  -- `doPendingFunctors`: the swap, a functor that queues others, the end
  swap : Action F
  run_next : List F → Bool → Action F
  finish : Action F

module _ {ℓ} {F : Type ℓ} where
  abbrev pub on_loop : System F → (EventLoop F → EventLoop F) → System F
  on_loop s f = record s { loop = f s.loop }

  -- The loop's thread, by where it stands; an action that is not its next step does nothing.
  pub loop_step : Phase F → Action F → System F → System F
  loop_step outside (early_queue f) s = record s {
    loop = queue_in_loop true s.loop f;
    queued = s.queued ++ f ∷ [];
  }
  loop_step outside start s = record s {
    loop = record s.loop { looping = true; quit = false };
    phase = testing;
  }
  loop_step testing test s =
      if s.loop.quit
      then record s { loop = record s.loop { looping = false }; phase = outside }
      else record s { phase = polling }
  loop_step polling poll_returns s = record s {
    loop = record s.loop { event_handling = true };
    phase = handling;
  }
  loop_step handling drain s = on_loop s handle_read
  loop_step handling (handler_queues f) s = record s {
    loop = queue_in_loop true s.loop f;
    queued = s.queued ++ f ∷ [];
  }
  loop_step handling handler_quits s = on_loop s (λ l. record l { quit = true })
  loop_step handling handled s = record s {
    loop = record s.loop { event_handling = false; calling_pending_functors = true };
    phase = starting;
  }
  loop_step starting swap s = record s {
    loop = record s.loop { pending_functors = [] };
    phase = calling s.loop.pending_functors;
  }
  loop_step (calling (f ∷ fs)) (run_next queues quits) s = record s {
    loop = queue_all (record s.loop { quit = s.loop.quit || quits }) queues;
    phase = calling fs;
    queued = s.queued ++ queues;
    ran = s.ran ++ f ∷ [];
  }
  loop_step (calling []) finish s = record s {
    loop = record s.loop { calling_pending_functors = false };
    phase = testing;
  }
  loop_step phase action s = s

  -- A thread that has nothing to announce does not call `wakeup`.
  pub step : System F → Action F → System F
  step s (push f) = record s {
    loop = push_functor s.loop f;
    waking = s.waking + 1;
    queued = s.queued ++ f ∷ [];
  }
  step s set_quit = record s { loop = record s.loop { quit = true }; waking = s.waking + 1 }
  step s wake =
      if ltb 0 s.waking then record s { loop = wakeup s.loop; waking = s.waking - 1 } else s
  step s action = loop_step s.phase action s

  pub run : System F → List (Action F) → System F
  run s [] = s
  run s (action ∷ rest) = run (step s action) rest
