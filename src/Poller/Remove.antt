-- ===== src/Poller/Remove.antt =====
-- `Channel::remove`, `EventLoop::removeChannel` and `EPollPoller::removeChannel`.
use toy_basket.Prelude.{
  store, ℕ, none, some, true, false, not, ◌||◌, ◌==◌, if◌then◌else◌, ==_iff, ==_refl, ◌≡◌, ◌≢◌,
  refl, sym, ap, ◌∙◌,
}
use toy_basket.Channel.{Channel, Index, k_new, k_added, k_deleted, is_none_event, none_event}
use toy_basket.Poller.{
  Epoll, Loop, is_channel, contains, set_index, remove, remove_channel, poller_remove_channel,
  remove_indexed,
}
use toy_basket.Poller.Sync.{IsSync, store-IsSync}
use toy_basket.Poller.Steps.{
  store_twice, store_again, none_watched, kernel_entry, remove_deleted, remove_added,
}

module _ (k : Epoll) where
  -- What the removal of channel `c` has to bring about.
  pub record Removed (l : Loop k.State) (c : ℕ) (l' : Loop k.State) : Type 0 where
    pub sync : IsSync k l'
    pub index : (l'.channel c).index ≡ k_new
    pub same_fd : (l'.channel c).fd ≡ (l.channel c).fd
    pub mask : (l'.channel c).events ≡ (l.channel c).events
    pub handling : l'.event_handling ≡ l.event_handling
    pub idle : (l'.channel c).added_to_loop ≡ false
    pub unlisted : l'.channels (l.channel c).fd ≡ none
    pub unwatched : k.interest l'.epoll (l.channel c).fd ≡ none

  abbrev cleared : Loop k.State → ℕ → Channel
  cleared l c = record (l.channel c) { added_to_loop = false; index = k_new }

  removed :
      (l l' : Loop k.State) (c : ℕ)
      → IsSync k l
      → l.channels (l.channel c).fd ≡ some c
      → l'.event_handling ≡ l.event_handling
      → ((d : ℕ) → l'.channel d ≡ (if c == d then cleared l c else l.channel d))
      → ((j : ℕ) → l'.channels j ≡ (if (l.channel c).fd == j then none else l.channels j))
      → ((j : ℕ)
          → k.interest l'.epoll j ≡ (if (l.channel c).fd == j then none else k.interest l.epoll j))
      → Removed l c l'
  removed l l' c s listed phase heap map kernel = record {
    sync =
        store-IsSync k l l' c (cleared l c) none none s refl (λ d m. cc) refl
          (λ ne. absurd (ne refl)) (λ d e. cc) heap map kernel;
    index = ap (λ ch. ch.index) now;
    same_fd = ap (λ ch. ch.fd) now;
    mask = ap (λ ch. ch.events) now;
    handling = phase;
    idle = ap (λ ch. ch.added_to_loop) now;
    unlisted = rw (map (l.channel c).fd, ==_refl (l.channel c).fd);
    unwatched = rw (kernel (l.channel c).fd, ==_refl (l.channel c).fd);
  }
    where
      now : l'.channel c ≡ cleared l c
      now = rw (heap c, ==_refl c)

  -- No event of the channel is being handled, or it is the current one or not among the active.
  abbrev pub MayRemove : Loop k.State → ℕ → Type 0
  MayRemove l c =
      (not l.event_handling
        || (is_channel l.current_active_channel c || not (contains l.active_channels c)))
      ≡ true

  -- `Channel::remove` of a registered channel with an empty mask fails no assertion; afterwards the
  -- channel is new to the poller, its descriptor is in neither map, and both are in step.
  pub remove_lem :
      (l : Loop k.State) (c : ℕ)
      → IsSync k l
      → (l.channel c).index ≢ k_new
      → (l.channel c).events ≡ none_event
      → MayRemove l c
      → (l' : Loop k.State) × (remove k l c ≡ some l') × Removed l c l'
  unfolding remove remove_channel poller_remove_channel is_none_event
  remove_lem l c s old mask may = by_index (l.channel c).index refl
    where
      ch : Channel
      ch = record (l.channel c) { added_to_loop = false }

      l₁ : Loop k.State
      l₁ = record l { channel = store l.channel c ch }

      listed : l.channels (l.channel c).fd ≡ some c
      listed = s.by_channel c old

      here : l₁.channel c ≡ ch
      here = rw (==_refl c)

      recleared :
          (d : ℕ)
          → (set_index k l₁ c k_new).channel d ≡ (if c == d then cleared l c else l.channel d)
      recleared d =
          store_twice l.channel c ch (record (l₁.channel c) { index = k_new }) d
          ∙ ap (λ (x : Channel). if c == d then record x { index = k_new } else l.channel d) here

      started :
          (i : Index) {l' : Loop k.State}
          → (l.channel c).index ≡ i
          → remove_indexed k i l₁ c ≡ some l'
          → remove k l c ≡ some l'
      started i e done =
          rw ((==_iff _ _).1 mask, may, ==_refl c) (ap (λ x. remove_indexed k x l₁ c) e ∙ done)

      by_index :
          (i : Index)
          → (l.channel c).index ≡ i
          → (l' : Loop k.State) × (remove k l c ≡ some l') × Removed l c l'
      by_index k_new e = absurd (old e)
      by_index k_deleted e = (
        set_index k (record l₁ { channels = store l.channels (l₁.channel c).fd none }) c k_new,
        started k_deleted e (remove_deleted k l₁ c (rw (==_refl c) listed) (rw (==_refl c) mask)),
        removed l _ c s listed refl recleared (λ j. rw (==_refl c))
            (store_again (k.interest l.epoll) (l.channel c).fd none
              (kernel_entry k l c k_deleted s old e)),
      )
      by_index k_added e =
          let (s', done) =
            k.delete_watched (l.channel c).fd (l.channel c).events c l.epoll
              (λ n. none_watched _ (sym n ∙ kernel_entry k l c k_added s old e)) in
          (
            set_index k
                (record l₁ { channels = store l.channels (l₁.channel c).fd none; epoll = s' }) c
                k_new,
            started k_added e (
                remove_added k l₁ c s' (rw (==_refl c) listed) (rw (==_refl c) mask)
                  (rw (==_refl c) done)),
            removed l _ c s listed refl recleared (λ j. rw (==_refl c))
                (k.interest-delete (l.channel c).fd (l.channel c).events c l.epoll s' done),
          )
