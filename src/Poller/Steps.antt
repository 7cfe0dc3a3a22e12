-- ===== src/Poller/Steps.antt =====
-- Single steps of the poller, on the branch that each takes, and lemmas on its maps.
use toy_basket.Prelude.{
  store, ℕ, none, some, true, false, ◌==◌, if◌then◌else◌, ==_iff, ==_refl, Bool-cases, inl, inr,
  ◌≡◌, ◌≢◌, sym, ap, subst, ◌∙◌,
}
use toy_basket.Channel.{Channel, Index, k_new, k_added, k_deleted, is_none_event, none_event}
use toy_basket.Poller.{
  Epoll, Loop, CtlOp, add, modify, delete, update, set_index, update_indexed, unwatch,
  remove_indexed,
}
use toy_basket.Poller.Sync.{AtFd, Watched, IsSync}

-- Writing the entry of a channel twice leaves the second.
pub store_twice :
    (f : ℕ → Channel) (c : ℕ) (ch ch' : Channel) (d : ℕ)
    → store (store f c ch) c ch' d ≡ (if c == d then ch' else f d)
store_twice f c ch ch' d = elim (Bool-cases (c == d)) [ inl y ↦ rw y | inr n ↦ rw n ]

-- Writing the entry that stands in the map already changes nothing.
pub store_again {ℓ} :
    {A : Type ℓ} (m : ℕ → A) (fd : ℕ) (a : A)
    → m fd ≡ a
    → (j : ℕ) → m j ≡ (if fd == j then a else m j)
store_again m fd a e j = elim (Bool-cases (fd == j)) [
  | inl y ↦ rw y (ap m (sym ((==_iff fd j).0 y)) ∙ e)
  | inr n ↦ rw n
]

pub none_found : (d : ℕ) → ¬ none ≡ some d
none_found d e = cc

pub none_watched : (w : ℕ × ℕ) → ¬ none ≡ some w
none_watched w e = cc

module _ (k : Epoll) where
  -- What the kernel has for a channel that the map lists.
  pub kernel_entry :
      (l : Loop k.State) (c : ℕ) (i : Index)
      → IsSync k l
      → (l.channel c).index ≢ k_new
      → (l.channel c).index ≡ i
      → Watched i (l.channel c) c (k.interest l.epoll (l.channel c).fd)
  kernel_entry l c i s old e =
      subst (λ x. Watched x (l.channel c) c (k.interest l.epoll (l.channel c).fd)) e
        (subst (λ m. AtFd l.channel (l.channel c).fd m (k.interest l.epoll (l.channel c).fd))
          (s.by_channel c old) (s.by_fd (l.channel c).fd)).1

  pub update_accepted :
      (l : Loop k.State) (op : CtlOp) (c : ℕ) (s : k.State)
      → k.ctl op (l.channel c).fd (l.channel c).events c l.epoll ≡ some s
      → update k l op c ≡ some (record l { epoll = s })
  unfolding update
  update_accepted l op c s ok = rw (ok, update)

  -- A channel that is new to the poller is added to the map and to the kernel.
  pub add_new :
      (l : Loop k.State) (c : ℕ) (s : k.State)
      → l.channels (l.channel c).fd ≡ none
      → k.ctl add (l.channel c).fd (l.channel c).events c l.epoll ≡ some s
      → update_indexed k k_new l c
        ≡ some (record (set_index k l c k_added) {
          channels = store l.channels (l.channel c).fd (some c);
          epoll = s;
        })
  unfolding update_indexed
  add_new l c s unused ok = rw unused (
      update_accepted
        (set_index k (record l { channels = store l.channels (l.channel c).fd (some c) }) c k_added)
        add c s (rw (==_refl c) ok))

  pub add_again :
      (l : Loop k.State) (c : ℕ) (s : k.State)
      → l.channels (l.channel c).fd ≡ some c
      → k.ctl add (l.channel c).fd (l.channel c).events c l.epoll ≡ some s
      → update_indexed k k_deleted l c ≡ some (record (set_index k l c k_added) { epoll = s })
  unfolding update_indexed
  add_again l c s listed ok =
      rw (listed, ==_refl c) (update_accepted (set_index k l c k_added) add c s (rw (==_refl c) ok))

  pub modify_added :
      (l : Loop k.State) (c : ℕ) (s : k.State)
      → l.channels (l.channel c).fd ≡ some c
      → is_none_event (l.channel c) ≡ false
      → k.ctl modify (l.channel c).fd (l.channel c).events c l.epoll ≡ some s
      → update_indexed k k_added l c ≡ some (record l { epoll = s })
  unfolding update_indexed
  modify_added l c s listed some_event ok =
      rw (listed, ==_refl c, some_event) (update_accepted l modify c s ok)

  pub delete_added :
      (l : Loop k.State) (c : ℕ) (s : k.State)
      → l.channels (l.channel c).fd ≡ some c
      → is_none_event (l.channel c) ≡ true
      → k.ctl delete (l.channel c).fd (l.channel c).events c l.epoll ≡ some s
      → update_indexed k k_added l c ≡ some (set_index k (record l { epoll = s }) c k_deleted)
  unfolding update_indexed
  delete_added l c s listed no_event ok =
      rw (listed, ==_refl c, no_event, update_accepted l delete c s ok)

  pub remove_deleted :
      (l : Loop k.State) (c : ℕ)
      → l.channels (l.channel c).fd ≡ some c
      → (l.channel c).events ≡ none_event
      → remove_indexed k k_deleted l c
        ≡ some
            (set_index k (record l { channels = store l.channels (l.channel c).fd none }) c k_new)
  unfolding remove_indexed unwatch is_none_event
  remove_deleted l c listed mask = rw (listed, ==_refl c, (==_iff _ _).1 mask)

  pub remove_added :
      (l : Loop k.State) (c : ℕ) (s : k.State)
      → l.channels (l.channel c).fd ≡ some c
      → (l.channel c).events ≡ none_event
      → k.ctl delete (l.channel c).fd (l.channel c).events c l.epoll ≡ some s
      → remove_indexed k k_added l c
        ≡ some (
            set_index k
              (record l { channels = store l.channels (l.channel c).fd none; epoll = s })
              c
              k_new)
  unfolding remove_indexed unwatch is_none_event
  remove_added l c s listed mask ok = rw (
    listed,
    ==_refl c,
    (==_iff _ _).1 mask,
    update_accepted (record l { channels = store l.channels (l.channel c).fd none }) delete c s ok,
  )
