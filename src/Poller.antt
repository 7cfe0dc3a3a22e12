-- ===== src/Poller.antt =====
-- communication/EPollPoller.cpp and Poller.cpp with the channel calls of EventLoop.cpp and
-- Channel.h that lead to them: which channels a loop watches, and what the kernel watches for it.
-- A channel object is a number, its address; one loop owns all of them. `none` is a failed
-- assertion or a fatal log entry. The kernel's epoll instance is a parameter.
pub mod Sync
pub mod Steps
pub mod Update
pub mod Remove
pub mod Tests
use Prim.Native.Nat.{bit_or}
use toy_basket.Prelude.{
  ℕ, List, [], ◌∷◌, Option, none, some, Bool, true, false, not, ◌&&◌, ◌||◌, ◌==◌, if◌then◌else◌,
  store, check, ◌>>=◌, ◌>>◌, ◌≡◌, ◌≢◌,
}
use toy_basket.Channel.{
  Channel, Index, k_new, k_added, k_deleted, none_event, read_event, write_event, clear,
  is_none_event,
}

pub data CtlOp : Type 0 where
  add modify delete : CtlOp

-- epoll(7): an instance maps file descriptors to an event mask and the pointer of the caller.
-- `epoll_ctl` gives the new instance, or `none` for -1, which leaves the instance as it was.
pub record Epoll : Type 1 where
  pub State : Type 0
  pub ctl : CtlOp → ℕ → ℕ → ℕ → State → Option State
  pub interest : State → ℕ → Option (ℕ × ℕ)
  pub interest-add :
      (fd events ptr : ℕ) (s s' : State)
      → ctl add fd events ptr s ≡ some s'
      → (j : ℕ) → interest s' j ≡ (if fd == j then some (events, ptr) else interest s j)
  pub interest-modify :
      (fd events ptr : ℕ) (s s' : State)
      → ctl modify fd events ptr s ≡ some s'
      → (j : ℕ) → interest s' j ≡ (if fd == j then some (events, ptr) else interest s j)
  pub interest-delete :
      (fd events ptr : ℕ) (s s' : State)
      → ctl delete fd events ptr s ≡ some s'
      → (j : ℕ) → interest s' j ≡ (if fd == j then none else interest s j)
  pub delete_watched :
      (fd events ptr : ℕ) (s : State)
      → interest s fd ≢ none
      → (s' : State) × (ctl delete fd events ptr s ≡ some s')

-- What the loop, its poller and the channels know.
pub record Loop (K : Type 0) : Type 0 where
  pub channel : ℕ → Channel
  pub channels : ℕ → Option ℕ
  pub epoll : K
  pub event_handling : Bool
  pub current_active_channel : Option ℕ
  pub active_channels : List ℕ

abbrev pub found : Option ℕ → Bool
found none = false
found (some c) = true

abbrev pub is_channel : Option ℕ → ℕ → Bool
is_channel none c = false
is_channel (some d) c = d == c

abbrev pub contains : List ℕ → ℕ → Bool
contains [] c = false
contains (d ∷ ds) c = (d == c) || contains ds c

module _ (k : Epoll) where
  -- `EPollPoller::update`: only a failed deletion is survived.
  pub update : Loop k.State → CtlOp → ℕ → Option (Loop k.State)
  update l op c = elim (k.ctl op (l.channel c).fd (l.channel c).events c l.epoll) [
    | some s ↦ some (record l { epoll = s })
    | none ↦ elim op [ delete ↦ some l | _ ↦ none ]
  ]

  abbrev pub set_index : Loop k.State → ℕ → Index → Loop k.State
  set_index l c i = record l { channel = store l.channel c (record (l.channel c) { index = i }) }

  pub update_indexed : Index → Loop k.State → ℕ → Option (Loop k.State)
  update_indexed k_new l c = do
    check (not (found (l.channels (l.channel c).fd)))
    update
        (set_index (record l { channels = store l.channels (l.channel c).fd (some c) }) c k_added)
        add c
  update_indexed k_deleted l c = do
    check (found (l.channels (l.channel c).fd))
    check (is_channel (l.channels (l.channel c).fd) c)
    update (set_index l c k_added) add c
  update_indexed k_added l c = do
    check (found (l.channels (l.channel c).fd))
    check (is_channel (l.channels (l.channel c).fd) c)
    if is_none_event (l.channel c)
        then (do l' ← update l delete c; some (set_index l' c k_deleted))
        else update l modify c

  -- `EventLoop::updateChannel` and `EPollPoller::updateChannel`.
  pub update_channel : Loop k.State → ℕ → Option (Loop k.State)
  update_channel l c = update_indexed (l.channel c).index l c

  -- `Channel::update` after the event mask of the channel has been set.
  pub set_events : Loop k.State → ℕ → ℕ → Option (Loop k.State)
  set_events l c events =
      update_channel
        (record l {
          channel =
              store l.channel c (record (l.channel c) { events = events; added_to_loop = true });
        })
        c

  unfoldable pub enable_reading : Loop k.State → ℕ → Option (Loop k.State)
  enable_reading l c = set_events l c (bit_or (l.channel c).events read_event)

  pub disable_reading : Loop k.State → ℕ → Option (Loop k.State)
  disable_reading l c = set_events l c (clear (l.channel c).events read_event)

  pub enable_writing : Loop k.State → ℕ → Option (Loop k.State)
  enable_writing l c = set_events l c (bit_or (l.channel c).events write_event)

  pub disable_writing : Loop k.State → ℕ → Option (Loop k.State)
  disable_writing l c = set_events l c (clear (l.channel c).events write_event)

  unfoldable pub disable_all : Loop k.State → ℕ → Option (Loop k.State)
  disable_all l c = set_events l c none_event

  abbrev pub is_registered : Index → Bool
  is_registered k_new = false
  is_registered _ = true

  -- `if (index == kAdded) update(EPOLL_CTL_DEL, channel);`
  pub unwatch : Index → Loop k.State → ℕ → Option (Loop k.State)
  unwatch k_added l c = update l delete c
  unwatch _ l c = some l

  pub remove_indexed : Index → Loop k.State → ℕ → Option (Loop k.State)
  remove_indexed index l c = do
    check (found (l.channels (l.channel c).fd))
    check (is_channel (l.channels (l.channel c).fd) c)
    check (is_none_event (l.channel c))
    check (is_registered index)
    l' ← unwatch index (record l { channels = store l.channels (l.channel c).fd none }) c
    some (set_index l' c k_new)

  -- `EPollPoller::removeChannel`.
  pub poller_remove_channel : Loop k.State → ℕ → Option (Loop k.State)
  poller_remove_channel l c = remove_indexed (l.channel c).index l c

  -- `EventLoop::removeChannel`: no channel with a pending event is removed but the current one.
  pub remove_channel : Loop k.State → ℕ → Option (Loop k.State)
  remove_channel l c = do
    check (
        not l.event_handling
        || (is_channel l.current_active_channel c || not (contains l.active_channels c)))
    poller_remove_channel l c

  -- `Channel::remove`.
  pub remove : Loop k.State → ℕ → Option (Loop k.State)
  remove l c = do
    check (is_none_event (l.channel c))
    remove_channel
        (record l { channel = store l.channel c (record (l.channel c) { added_to_loop = false }) })
        c

  -- `EventLoop::hasChannel` and `Poller::hasChannel`.
  pub has_channel : Loop k.State → ℕ → Bool
  has_channel l c = is_channel (l.channels (l.channel c).fd) c
