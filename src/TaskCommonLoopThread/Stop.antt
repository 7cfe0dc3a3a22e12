-- ===== src/TaskCommonLoopThread/Stop.antt =====
-- src/task/TaskCommonLoopThread.cpp: what `stopLoop` does for good.
use toy_basket.Prelude.{
  ℕ, suc, ◌≤◌, List, [], ◌∷◌, ◌++◌, Bool, true, false, if◌then◌else◌, some, ◌≡◌, refl, arith, sym,
  subst,
}
use toy_basket.TaskCommonLoopThread.{
  Place, absent, launched, testing, calling, behind, ended, idle, joining, gone,
  TaskCommonLoopThread, Action, starts, stops, destroys, goes_on, proceeds, step, run,
}
use toy_basket.TaskCommonLoopThread.Exited.{calls_after, Exited, of, Kept, step-Exited, then-Exited}

-- Once stopLoop has set `exiting_`, whatever the owner calls and the thread does next: unless the
-- process ends, the flag stays set, and the callback runs at most once more, and that only if the
-- thread was behind the test of its loop and not at the end of the callback. If the thread was at its
-- end it does not run again, however often startLoop is called.
pub idles_for_good :
    (as' : List Action) (t : TaskCommonLoopThread)
    → t.exiting ≡ true
    → Exited t.rounds (calls_after t.thread t.rounds) (run as' t)
unfolding run
idles_for_good [] t e = (e, omega arith, omega arith)
idles_for_good (a ∷ as') t e =
    then-Exited t.rounds (calls_after t.thread t.rounds) (step a t) (run as') (idles_for_good as') (
      subst (λ b. Kept t.rounds t.thread (step a (record t { exiting = b }))) (sym e)
        (step-Exited a t.rounds t.started t.callback t.joinable t.thread t.owner))

-- No call of the owner begins; how many steps the thread takes, and how many it has to its end.
abbrev pub NoCalls : List Action → Type 0
NoCalls [] = Unit
NoCalls (starts ∷ as') = ⊥
NoCalls (stops ∷ as') = ⊥
NoCalls (destroys ∷ as') = ⊥
NoCalls (goes_on ∷ as') = NoCalls as'
NoCalls (proceeds ∷ as') = NoCalls as'

abbrev pub steps_in : List Action → ℕ
steps_in [] = 0
steps_in (starts ∷ as') = steps_in as'
steps_in (stops ∷ as') = steps_in as'
steps_in (destroys ∷ as') = steps_in as'
steps_in (goes_on ∷ as') = steps_in as'
steps_in (proceeds ∷ as') = suc (steps_in as')

NoCalls-append : (as' : List Action) → NoCalls as' → NoCalls (as' ++ goes_on ∷ [])
NoCalls-append [] h = tt
NoCalls-append (starts ∷ as') h = absurd h
NoCalls-append (stops ∷ as') h = absurd h
NoCalls-append (destroys ∷ as') h = absurd h
NoCalls-append (goes_on ∷ as') h = NoCalls-append as' h
NoCalls-append (proceeds ∷ as') h = NoCalls-append as' h

-- The thread is at its end and has been joined.
abbrev pub joined : Bool → Bool → ℕ → TaskCommonLoopThread
joined destroying callback n = of n false callback false ended (if destroying then gone else idle)

stays_joined :
    (b c : Bool) (n : ℕ) (as' : List Action)
    → NoCalls as'
    → run as' (joined b c n) ≡ some (joined b c n)
unfolding run step
stays_joined b c n [] h = refl
stays_joined b c n (starts ∷ as') h = absurd h
stays_joined b c n (stops ∷ as') h = absurd h
stays_joined b c n (destroys ∷ as') h = absurd h
stays_joined true c n (goes_on ∷ as') h = stays_joined true c n as' h
stays_joined false c n (goes_on ∷ as') h = stays_joined false c n as' h
stays_joined b c n (proceeds ∷ as') h = stays_joined b c n as' h

module _ (b c : Bool) (n : ℕ) where
  from_end :
      (as' : List Action)
      → NoCalls as'
      → run (as' ++ goes_on ∷ []) (of n false c true ended (joining b)) ≡ some (joined b c n)
  unfolding run step
  from_end [] h = refl
  from_end (starts ∷ as') h = absurd h
  from_end (stops ∷ as') h = absurd h
  from_end (destroys ∷ as') h = absurd h
  from_end (goes_on ∷ as') h = stays_joined b c n (as' ++ goes_on ∷ []) (NoCalls-append as' h)
  from_end (proceeds ∷ as') h = from_end as' h

  from_behind :
      (s : Bool) (as' : List Action)
      → NoCalls as'
      → 1 ≤ steps_in as'
      → run (as' ++ goes_on ∷ []) (of n s c true behind (joining b)) ≡ some (joined b c n)
  unfolding run step
  from_behind s [] h k = absurd (omega arith)
  from_behind s (starts ∷ as') h k = absurd h
  from_behind s (stops ∷ as') h k = absurd h
  from_behind s (destroys ∷ as') h k = absurd h
  from_behind s (goes_on ∷ as') h k = from_behind s as' h k
  from_behind s (proceeds ∷ as') h k = from_end as' h

  from_testing :
      (s : Bool) (as' : List Action)
      → NoCalls as'
      → 2 ≤ steps_in as'
      → run (as' ++ goes_on ∷ []) (of n s c true testing (joining b)) ≡ some (joined b c n)
  unfolding run step
  from_testing s [] h k = absurd (omega arith)
  from_testing s (starts ∷ as') h k = absurd h
  from_testing s (stops ∷ as') h k = absurd h
  from_testing s (destroys ∷ as') h k = absurd h
  from_testing s (goes_on ∷ as') h k = from_testing s as' h k
  from_testing s (proceeds ∷ as') h k = from_behind s as' h (omega arith)

  from_launched :
      (s : Bool) (as' : List Action)
      → NoCalls as'
      → 3 ≤ steps_in as'
      → run (as' ++ goes_on ∷ []) (of n s c true launched (joining b)) ≡ some (joined b c n)
  unfolding run step
  from_launched s [] h k = absurd (omega arith)
  from_launched s (starts ∷ as') h k = absurd h
  from_launched s (stops ∷ as') h k = absurd h
  from_launched s (destroys ∷ as') h k = absurd h
  from_launched s (goes_on ∷ as') h k = from_launched s as' h k
  from_launched s (proceeds ∷ as') h k = from_testing true as' h (omega arith)

from_calling :
    (b c : Bool) (n : ℕ) (s : Bool) (as' : List Action)
    → NoCalls as'
    → 3 ≤ steps_in as'
    → run (as' ++ goes_on ∷ []) (of n s c true calling (joining b)) ≡ some (joined b c (suc n))
unfolding run step
from_calling b c n s [] h k = absurd (omega arith)
from_calling b c n s (starts ∷ as') h k = absurd h
from_calling b c n s (stops ∷ as') h k = absurd h
from_calling b c n s (destroys ∷ as') h k = absurd h
from_calling b c n s (goes_on ∷ as') h k = from_calling b c n s as' h k
from_calling b c n s (proceeds ∷ as') h k = from_testing b c (suc n) s as' h (omega arith)

-- A thread has been created.
abbrev pub IsCreated : Place → Type 0
IsCreated absent = ⊥
IsCreated launched = Unit
IsCreated testing = Unit
IsCreated calling = Unit
IsCreated behind = Unit
IsCreated ended = Unit

from_any :
    (p : Place) (b c : Bool) (n : ℕ) (as' : List Action)
    → IsCreated p
    → NoCalls as'
    → 3 ≤ steps_in as'
    → run (as' ++ goes_on ∷ []) (of n false c true p (joining b))
      ≡ some (joined b c (calls_after p n))
from_any absent b c n as' i h k = absurd i
from_any launched b c n as' i h k = from_launched b c n false as' h k
from_any testing b c n as' i h k = from_testing b c n false as' h (omega (arith, k))
from_any calling b c n as' i h k = from_calling b c n false as' h k
from_any behind b c n as' i h k = from_behind b c n false as' h (omega (arith, k))
from_any ended b c n as' i h k = from_end b c n as' h

-- An idle owner with a thread to join.
abbrev pub owned : Bool → Bool → Bool → Place → ℕ → TaskCommonLoopThread
owned exiting started callback thread n = record {
  exiting = exiting;
  started = started;
  callback = callback;
  thread = thread;
  joinable = true;
  owner = idle;
  rounds = n;
}

-- If the owner, which is idle and has a thread to join, calls stopLoop or the destructor, then
-- wherever the thread is, in every schedule with no other call of the owner, in which the thread takes
-- at least three steps and the owner looks again after them, the thread has come to its end and is
-- joined and the call has returned. The callback has run once more if the thread was behind the test of
-- its loop and not at the end of the callback, and not again otherwise.
pub stop_loop_returns :
    (destroying exiting started callback : Bool) (thread : Place) (n : ℕ) (as' : List Action)
    → IsCreated thread
    → NoCalls as'
    → 3 ≤ steps_in as'
    → run
        ((if destroying then destroys else stops) ∷ (as' ++ goes_on ∷ []))
        (owned exiting started callback thread n)
      ≡ some (joined destroying callback (calls_after thread n))
unfolding run step
stop_loop_returns true exiting started callback thread n as' i h k =
    from_any thread true callback n as' i h k
stop_loop_returns false exiting started callback thread n as' i h k =
    from_any thread false callback n as' i h k
