-- ===== src/Poller/Tests.antt =====
-- The poller's theorems at a concrete kernel and concrete channels.
use toy_basket.Prelude.{
  store, ℕ, [], Option, none, some, true, false, ◌==◌, if◌then◌else◌, ◌≡◌, ◌≢◌, refl, sym, ap,
  arith,
}
use toy_basket.Channel.{new_channel, k_deleted, read_event}
use toy_basket.Poller.{Epoll, CtlOp, add, modify, delete, Loop, set_events, remove}
use toy_basket.Poller.Sync.{IsSync, store-IsSync}
use toy_basket.Poller.Update.{Updated, set_events_lem}
use toy_basket.Poller.Remove.{Removed, remove_lem}

-- A kernel that follows epoll_ctl(2): a descriptor is added once, and changed or deleted only if
-- it is there.
abbrev pub set_entry :
    CtlOp → ℕ → ℕ → ℕ → Option (ℕ × ℕ) → (ℕ → Option (ℕ × ℕ)) → Option (ℕ → Option (ℕ × ℕ))
set_entry add fd events ptr none s = some (store s fd (some (events, ptr)))
set_entry modify fd events ptr (some e) s = some (store s fd (some (events, ptr)))
set_entry delete fd events ptr (some e) s = some (store s fd none)
set_entry op fd events ptr entry s = none

at_entry :
    (fd : ℕ) (w : Option (ℕ × ℕ)) (s s' : ℕ → Option (ℕ × ℕ))
    → some (store s fd w) ≡ some s'
    → (j : ℕ) → s' j ≡ (if fd == j then w else s j)
at_entry fd w s s' e j = let same : store s fd w ≡ s' = cc in ap (λ f. f j) (sym same)

pub add_entry :
    (fd events ptr : ℕ) (entry : Option (ℕ × ℕ)) (s s' : ℕ → Option (ℕ × ℕ))
    → set_entry add fd events ptr entry s ≡ some s'
    → (j : ℕ) → s' j ≡ (if fd == j then some (events, ptr) else s j)
add_entry fd events ptr none s s' e j = at_entry fd (some (events, ptr)) s s' e j
add_entry fd events ptr (some x) s s' e j = cc

pub modify_entry :
    (fd events ptr : ℕ) (entry : Option (ℕ × ℕ)) (s s' : ℕ → Option (ℕ × ℕ))
    → set_entry modify fd events ptr entry s ≡ some s'
    → (j : ℕ) → s' j ≡ (if fd == j then some (events, ptr) else s j)
modify_entry fd events ptr (some x) s s' e j = at_entry fd (some (events, ptr)) s s' e j
modify_entry fd events ptr none s s' e j = cc

pub delete_entry :
    (fd events ptr : ℕ) (entry : Option (ℕ × ℕ)) (s s' : ℕ → Option (ℕ × ℕ))
    → set_entry delete fd events ptr entry s ≡ some s'
    → (j : ℕ) → s' j ≡ (if fd == j then none else s j)
delete_entry fd events ptr (some x) s s' e j = at_entry fd none s s' e j
delete_entry fd events ptr none s s' e j = cc

pub delete_there :
    (fd events ptr : ℕ) (entry : Option (ℕ × ℕ)) (s : ℕ → Option (ℕ × ℕ))
    → entry ≢ none
    → (s' : ℕ → Option (ℕ × ℕ)) × (set_entry delete fd events ptr entry s ≡ some s')
delete_there fd events ptr none s ne = absurd (ne refl)
delete_there fd events ptr (some x) s ne = (store s fd none, refl)

abbrev pub kernel : Epoll
kernel = record {
  State = ℕ → Option (ℕ × ℕ);
  ctl = λ op fd events ptr s. set_entry op fd events ptr (s fd) s;
  interest = λ s. s;
  interest-add = λ fd events ptr s s'. add_entry fd events ptr (s fd) s s';
  interest-modify = λ fd events ptr s s'. modify_entry fd events ptr (s fd) s s';
  interest-delete = λ fd events ptr s s'. delete_entry fd events ptr (s fd) s s';
  delete_watched = λ fd events ptr s. delete_there fd events ptr (s fd) s;
}

-- Channel `c` holds the descriptor `c`, and none is registered.
abbrev pub empty_loop : Loop (ℕ → Option (ℕ × ℕ))
empty_loop = record {
  channel = new_channel;
  channels = λ _. none;
  epoll = λ _. none;
  event_handling = false;
  current_active_channel = none;
  active_channels = [];
}

pub empty_loop-IsSync : IsSync kernel empty_loop
empty_loop-IsSync = record { by_fd = λ fd. refl; by_channel = λ c ne. absurd (ne refl) }

set_events_lem_example :
    (l' : Loop (ℕ → Option (ℕ × ℕ))) × (set_events kernel empty_loop 3 read_event ≡ some l')
    × Updated kernel empty_loop 3 read_event l'
set_events_lem_example =
    set_events_lem kernel empty_loop 3 read_event empty_loop-IsSync (λ _. refl)
      ((λ _. (store (λ _. none) 3 (some (read_event, 3)), refl)), (λ ne. absurd (ne refl)))

-- The loop with channel 3 registered and its mask empty again.
abbrev idle_loop : Loop (ℕ → Option (ℕ × ℕ))
idle_loop = record empty_loop {
  channel =
      store new_channel 3 (record (new_channel 3) { index = k_deleted; added_to_loop = true });
  channels = store (λ _. none) 3 (some 3);
}

idle_loop-IsSync : IsSync kernel idle_loop
idle_loop-IsSync =
    store-IsSync kernel empty_loop idle_loop 3 (idle_loop.channel 3) (some 3) none empty_loop-IsSync
      refl (λ d e. cc) (refl, refl) (λ _. refl) (λ d e. cc) (λ d. refl) (λ j. refl)
      (λ j. ground arith)

remove_lem_example :
    (l' : Loop (ℕ → Option (ℕ × ℕ))) × (remove kernel idle_loop 3 ≡ some l')
    × Removed kernel idle_loop 3 l'
remove_lem_example = remove_lem kernel idle_loop 3 idle_loop-IsSync (λ e. cc) refl refl
