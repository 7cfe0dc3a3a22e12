-- ===== src/Poller/Update.antt =====
-- `Channel::update`: the channel operations that change an event mask.
use toy_basket.Prelude.{
  store, ℕ, Option, none, some, true, ◌==◌, if◌then◌else◌, ==_iff, ==_refl, Bool-cases, inl, inr,
  ◌≡◌, ◌≢◌, refl, sym, subst, ap, ◌∙◌,
}
use toy_basket.Channel.{Channel, Index, k_new, k_added, k_deleted, is_none_event, none_event}
use toy_basket.Poller.{
  Epoll, Loop, add, modify, set_index, update_indexed, update_channel, set_events,
}
use toy_basket.Poller.Sync.{Watched, AtFd, IsSync, store-IsSync}
use toy_basket.Poller.Steps.{
  store_twice, store_again, none_found, none_watched, kernel_entry, add_new, add_again,
  modify_added, delete_added,
}

module _ (k : Epoll) where
  -- The kernel accepts to watch the descriptor of `c` for these events: as a new entry if it does
  -- not watch the descriptor, and as a change of the entry if it does.
  abbrev pub Accepts : Loop k.State → ℕ → ℕ → Type 0
  Accepts l c events =
      (k.interest l.epoll (l.channel c).fd ≡ none
        → (s : k.State) × (k.ctl add (l.channel c).fd events c l.epoll ≡ some s))
      × (k.interest l.epoll (l.channel c).fd ≢ none
          → (s : k.State) × (k.ctl modify (l.channel c).fd events c l.epoll ≡ some s))

  -- The descriptor of a new channel is not in use by another.
  abbrev pub Unused : Loop k.State → ℕ → Type 0
  Unused l c = (l.channel c).index ≡ k_new → l.channels (l.channel c).fd ≡ none

  -- What an update of channel `c` has to bring about.
  pub record Updated (l : Loop k.State) (c events : ℕ) (l' : Loop k.State) : Type 0 where
    pub sync : IsSync k l'
    pub mask : (l'.channel c).events ≡ events
    pub same_fd : (l'.channel c).fd ≡ (l.channel c).fd
    pub listed : l'.channels (l.channel c).fd ≡ some c
    pub handling : l'.event_handling ≡ l.event_handling
    pub watched : events ≢ none_event → k.interest l'.epoll (l.channel c).fd ≡ some (events, c)

  -- The channel after `Channel::update`.
  abbrev masked : Loop k.State → ℕ → ℕ → Index → Channel
  masked l c events i = record (l.channel c) { events = events; added_to_loop = true; index = i }

  updated :
      (l l' : Loop k.State) (c events : ℕ) (i : Index) (w : Option (ℕ × ℕ))
      → IsSync k l
      → ((d : ℕ) → l.channels (l.channel c).fd ≡ some d → d ≡ c)
      → Watched i (masked l c events i) c w
      → (events ≢ none_event → w ≡ some (events, c))
      → l'.event_handling ≡ l.event_handling
      → ((d : ℕ) → l'.channel d ≡ (if c == d then masked l c events i else l.channel d))
      → ((j : ℕ) → l'.channels j ≡ (if (l.channel c).fd == j then some c else l.channels j))
      → ((j : ℕ)
          → k.interest l'.epoll j ≡ (if (l.channel c).fd == j then w else k.interest l.epoll j))
      → Updated l c events l'
  updated l l' c events i w s free here watch phase heap map kernel = record {
    sync =
        store-IsSync k l l' c (masked l c events i) (some c) w s refl free (refl, here) (λ _. refl)
          (λ d e. cc) heap map kernel;
    mask = ap (λ ch. ch.events) now;
    same_fd = ap (λ ch. ch.fd) now;
    listed = rw (map (l.channel c).fd, ==_refl (l.channel c).fd);
    handling = phase;
    watched = λ ne. rw (kernel (l.channel c).fd, ==_refl (l.channel c).fd) (watch ne);
  }
    where
      now : l'.channel c ≡ masked l c events i
      now = rw (heap c, ==_refl c)

  -- `Channel::update` with a new mask: no assertion fails, the kernel watches the descriptor for
  -- exactly these events, and poller and kernel stay in step.
  pub set_events_lem :
      (l : Loop k.State) (c events : ℕ)
      → IsSync k l
      → Unused l c
      → Accepts l c events
      → (l' : Loop k.State) × (set_events k l c events ≡ some l') × Updated l c events l'
  unfolding set_events update_channel is_none_event
  set_events_lem l c events s unused ok = by_index (l.channel c).index refl
    where
      ch : Channel
      ch = record (l.channel c) { events = events; added_to_loop = true }

      l₁ : Loop k.State
      l₁ = record l { channel = store l.channel c ch }

      here : l₁.channel c ≡ ch
      here = rw (==_refl c)

      reindexed :
          (i : Index) (d : ℕ)
          → (set_index k l₁ c i).channel d ≡ (if c == d then masked l c events i else l.channel d)
      reindexed i d =
          store_twice l.channel c ch (record (l₁.channel c) { index = i }) d
          ∙ ap (λ (x : Channel). if c == d then record x { index = i } else l.channel d) here

      started :
          (i : Index) {l' : Loop k.State}
          → (l.channel c).index ≡ i
          → update_indexed k i l₁ c ≡ some l'
          → set_events k l c events ≡ some l'
      started i e done =
          ap (λ x. update_indexed k x l₁ c) (ap (λ (x : Channel). x.index) here ∙ e) ∙ done

      alone :
          l.channels (l.channel c).fd ≡ some c
          → (d : ℕ) → l.channels (l.channel c).fd ≡ some d
          → d ≡ c
      alone m d n = cc

      old : (i : Index) → (l.channel c).index ≡ i → i ≢ k_new → (l.channel c).index ≢ k_new
      old i e ne x = ne (sym e ∙ x)

      by_index :
          (i : Index)
          → (l.channel c).index ≡ i
          → (l' : Loop k.State) × (set_events k l c events ≡ some l') × Updated l c events l'
      by_index k_new e =
          let (s', done) = ok.0 (
            subst (λ m. AtFd l.channel (l.channel c).fd m (k.interest l.epoll (l.channel c).fd))
              (unused e) (s.by_fd (l.channel c).fd)) in
          (
            record (set_index k l₁ c k_added) {
              channels = store l.channels (l₁.channel c).fd (some c);
              epoll = s';
            },
            started k_new e (add_new k l₁ c s' (rw (==_refl c) (unused e)) (rw (==_refl c) done)),
            updated l _ c events k_added (some (events, c)) s
                (λ d m. absurd (none_found d (sym (unused e) ∙ m))) refl (λ _. refl) refl
                (reindexed k_added) (λ j. rw (==_refl c))
                (k.interest-add (l.channel c).fd events c l.epoll s' done),
          )
      by_index k_deleted e =
          let fresh : (l.channel c).index ≢ k_new = old k_deleted e (λ x. cc) in
          let (s', done) = ok.0 (kernel_entry k l c k_deleted s fresh e) in
          let listed : l.channels (l.channel c).fd ≡ some c = s.by_channel c fresh in
          (
            record (set_index k l₁ c k_added) { epoll = s' },
            started k_deleted e (add_again k l₁ c s' (rw (==_refl c) listed) (rw (==_refl c) done)),
            updated l _ c events k_added (some (events, c)) s (alone listed) refl (λ _. refl) refl
                (reindexed k_added) (store_again l.channels (l.channel c).fd (some c) listed)
                (k.interest-add (l.channel c).fd events c l.epoll s' done),
          )
      by_index k_added e =
          let fresh : (l.channel c).index ≢ k_new = old k_added e (λ x. cc) in
          let listed : l.channels (l.channel c).fd ≡ some c = s.by_channel c fresh in
          elim (Bool-cases (events == none_event)) [
            | inl zero ↦
                let (s', done) =
                  k.delete_watched (l.channel c).fd events c l.epoll
                    (λ n. none_watched _ (sym n ∙ kernel_entry k l c k_added s fresh e)) in
                (
                  set_index k (record l₁ { epoll = s' }) c k_deleted,
                  started k_added e (
                      delete_added k l₁ c s' (rw (==_refl c) listed) (rw (==_refl c) zero)
                        (rw (==_refl c) done)),
                  updated l _ c events k_deleted none s (alone listed) refl
                      (λ ne. absurd (ne ((==_iff events none_event).0 zero))) refl
                      (reindexed k_deleted)
                      (store_again l.channels (l.channel c).fd (some c) listed)
                      (k.interest-delete (l.channel c).fd events c l.epoll s' done),
                )
            | inr some_event ↦
                let (s', done) =
                  ok.1 (λ n. none_watched _ (sym n ∙ kernel_entry k l c k_added s fresh e)) in
                (
                  record l₁ { epoll = s' },
                  started k_added e (
                      modify_added k l₁ c s' (rw (==_refl c) listed) (rw (==_refl c) some_event)
                        (rw (==_refl c) done)),
                  updated l _ c events k_added (some (events, c)) s (alone listed) refl (λ _. refl)
                      refl (λ d. ap (λ i. if c == d then masked l c events i else l.channel d) e)
                      (store_again l.channels (l.channel c).fd (some c) listed)
                      (k.interest-modify (l.channel c).fd events c l.epoll s' done),
                )
          ]
