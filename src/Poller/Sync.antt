-- ===== src/Poller/Sync.antt =====
-- What the loop believes it watches and what the kernel watches are the same.
use toy_basket.Prelude.{
  ℕ, Option, none, some, true, false, ◌==◌, if◌then◌else◌, ==_iff, ==_refl, Bool-cases, inl, inr,
  ◌≡◌, ◌≢◌, refl, sym, subst, ap, ◌∙◌,
}
use toy_basket.Channel.{Channel, Index, k_new, k_added, k_deleted}
use toy_basket.Poller.{Epoll, Loop}

-- How the kernel watches a channel that the poller has in its map.
abbrev pub Watched : Index → Channel → ℕ → Option (ℕ × ℕ) → Type 0
Watched k_new ch c i = ⊥
Watched k_added ch c i = i ≡ some (ch.events, c)
Watched k_deleted ch c i = i ≡ none

-- What holds of a file descriptor, by its entry in the map and in the kernel.
abbrev pub AtFd : (ℕ → Channel) → ℕ → Option ℕ → Option (ℕ × ℕ) → Type 0
AtFd channel fd none i = i ≡ none
AtFd channel fd (some c) i = ((channel c).fd ≡ fd) × Watched (channel c).index (channel c) c i

AtFd-congr :
    (f g : ℕ → Channel) (fd : ℕ) (m : Option ℕ) (i : Option (ℕ × ℕ))
    → ((d : ℕ) → m ≡ some d → g d ≡ f d)
    → AtFd f fd m i
    → AtFd g fd m i
AtFd-congr f g fd none i same h = h
AtFd-congr f g fd (some d) i same h = rw (same d refl) h

module _ (k : Epoll) where
  -- The map holds exactly the channels whose index is not `kNew`, each under its descriptor, and
  -- the kernel watches exactly those whose index is `kAdded`, for the events of their mask.
  pub record IsSync (l : Loop k.State) : Type 0 where
    pub by_fd : (fd : ℕ) → AtFd l.channel fd (l.channels fd) (k.interest l.epoll fd)
    pub by_channel : (c : ℕ) → (l.channel c).index ≢ k_new → l.channels (l.channel c).fd ≡ some c

  -- Setting the entries of one channel `c` keeps the others, if its descriptor is not another's.
  pub store-IsSync :
      (l l' : Loop k.State) (c : ℕ) (ch : Channel) (m : Option ℕ) (i : Option (ℕ × ℕ))
      → IsSync l
      → ch.fd ≡ (l.channel c).fd
      → ((d : ℕ) → l.channels (l.channel c).fd ≡ some d → d ≡ c)
      → AtFd (λ _. ch) ch.fd m i
      → (ch.index ≢ k_new → m ≡ some c)
      → ((d : ℕ) → m ≡ some d → d ≡ c)
      → ((d : ℕ) → l'.channel d ≡ (if c == d then ch else l.channel d))
      → ((j : ℕ) → l'.channels j ≡ (if ch.fd == j then m else l.channels j))
      → ((j : ℕ) → k.interest l'.epoll j ≡ (if ch.fd == j then i else k.interest l.epoll j))
      → IsSync l'
  store-IsSync l l' c ch m i s same free here own owner heap map kernel = record {
    by_fd = at;
    by_channel = of;
  }
    where
      -- A channel in the map under another descriptor is another channel.
      other : (j d : ℕ) → (ch.fd == j) ≡ false → l.channels j ≡ some d → (c == d) ≡ false
      other j d ne e = elim (Bool-cases (c == d)) [
        | inl y ↦
            let at_d : AtFd l.channel j (some d) (k.interest l.epoll j) = rw e at (s.by_fd j) in
            let there : ch.fd ≡ j = same ∙ ap (λ x. (l.channel x).fd) ((==_iff c d).0 y) ∙ at_d.0 in
            let hit : (ch.fd == j) ≡ true = (==_iff ch.fd j).1 there in cc
        | inr n ↦ n
      ]

      at : (fd : ℕ) → AtFd l'.channel fd (l'.channels fd) (k.interest l'.epoll fd)
      at fd = elim (Bool-cases (ch.fd == fd)) [
        | inl y ↦
            rw (map fd, kernel fd, y)
              (AtFd-congr (λ _. ch) l'.channel fd m i
                (λ d e.
                  heap d
                  ∙ ap (λ b. if b then ch else l.channel d) ((==_iff c d).1 (sym (owner d e))))
                (subst (λ f. AtFd (λ _. ch) f m i) ((==_iff ch.fd fd).0 y) here))
        | inr n ↦
            rw (map fd, kernel fd, n)
              (AtFd-congr l.channel l'.channel fd (l.channels fd) (k.interest l.epoll fd)
                (λ d e. heap d ∙ ap (λ b. if b then ch else l.channel d) (other fd d n e))
                (s.by_fd fd))
      ]

      kept :
          (d : ℕ)
          → (c == d) ≡ false
          → (l.channel d).index ≢ k_new
          → l'.channels (l.channel d).fd ≡ some d
      kept d n ne = elim (Bool-cases (ch.fd == (l.channel d).fd)) [
        | inl y ↦
            let at_c : l.channels (l.channel c).fd ≡ some d =
              ap l.channels (sym same ∙ (==_iff ch.fd (l.channel d).fd).0 y) ∙ s.by_channel d ne in
            let hit : (c == d) ≡ true = (==_iff c d).1 (sym (free d at_c)) in cc
        | inr m ↦ rw (map (l.channel d).fd, m) (s.by_channel d ne)
      ]

      of : (d : ℕ) → (l'.channel d).index ≢ k_new → l'.channels (l'.channel d).fd ≡ some d
      of d ne = elim (Bool-cases (c == d)) [
        | inl y ↦
            let now : l'.channel d ≡ ch = rw (heap d, y) in
            rw (now, map ch.fd, ==_refl ch.fd)
              (own (λ e. ne (ap (λ x. x.index) now ∙ e)) ∙ ap some ((==_iff c d).0 y))
        | inr n ↦
            let now : l'.channel d ≡ l.channel d = rw (heap d, n) in
            rw now (kept d n (λ e. ne (ap (λ x. x.index) now ∙ e)))
      ]
