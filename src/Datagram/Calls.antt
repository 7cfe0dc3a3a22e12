-- ===== src/Datagram/Calls.antt =====
-- src/communication/net/DgramServer.cpp, DgramClient.cpp and UdpMultiCastListener.cpp: the channel in
-- the poller over any sequence of calls.
use Prim.Native.Nat.{bit_or}
use toy_basket.Prelude.{
  ℕ, zero, suc, List, [], ◌∷◌, Bool, true, false, not, ◌||◌, if◌then◌else◌, none, some, ◌>>=◌, ◌≡◌,
  ◌≢◌, refl, sym, ap, ◌∙◌, subst, arith,
}
use toy_basket.Channel.{none_event, read_event, k_new}
use toy_basket.Poller.{
  Epoll, Loop, add, modify, enable_reading, disable_all, remove, set_events, is_channel, contains,
}
use toy_basket.Poller.Sync.{IsSync, AtFd, Watched}
use toy_basket.Poller.Update.{Updated, Unused, set_events_lem}
use toy_basket.Poller.Remove.{MayRemove, remove_lem}
use toy_basket.Datagram.{
  DgramServer, stop_channel, ServerCall, starts, stops, serve_call, serve_calls, stop_times,
  open_and_stop,
}

module _ (k : Epoll) (c fd : ℕ) where
  -- Poller and kernel are in step, no event is being handled, and the channel is watched for reading
  -- or is in neither.
  pub record Listens (on : Bool) (l : Loop k.State) : Type 0 where
    pub sync : IsSync k l
    pub descriptor : (l.channel c).fd ≡ fd
    pub still : l.event_handling ≡ false
    pub mask : (l.channel c).events ≡ (if on then read_event else none_event)
    pub listed : l.channels fd ≡ (if on then some c else none)
    pub watched : k.interest l.epoll fd ≡ (if on then some (read_event, c) else none)

  -- The kernel never refuses to watch the descriptor.
  abbrev pub IsWilling : Type 0
  IsWilling =
      (s : k.State) (events : ℕ)
      → (k.interest s fd ≡ none → (s' : k.State) × (k.ctl add fd events c s ≡ some s'))
        × (k.interest s fd ≢ none → (s' : k.State) × (k.ctl modify fd events c s ≡ some s'))

  -- A channel that is listed is not new.
  listed_old :
      (l : Loop k.State)
      → IsSync k l
      → l.channels (l.channel c).fd ≡ some c
      → (l.channel c).index ≢ k_new
  listed_old l sync listed e =
      let entry : AtFd l.channel (l.channel c).fd (some c) (k.interest l.epoll (l.channel c).fd) =
        subst (λ m. AtFd l.channel (l.channel c).fd m (k.interest l.epoll (l.channel c).fd)) listed
          (sync.by_fd (l.channel c).fd) in
      subst (λ i. Watched i (l.channel c) c (k.interest l.epoll (l.channel c).fd)) e entry.1

  unused : (on : Bool) (l : Loop k.State) → Listens on l → Unused k l c
  unused true l h e = absurd (listed_old l h.sync (ap l.channels h.descriptor ∙ h.listed) e)
  unused false l h e = ap l.channels h.descriptor ∙ h.listed

  module _ (willing : IsWilling) where
    -- The channel gets a mask, from either state.
    masked :
        (on : Bool) (events : ℕ) (l : Loop k.State)
        → Listens on l
        → (l' : Loop k.State) × (set_events k l c events ≡ some l') × Updated k l c events l'
    masked on events l h = set_events_lem k l c events h.sync (unused on l h) (
        subst
          (λ f.
            (k.interest l.epoll f ≡ none
              → (s' : k.State) × (k.ctl add f events c l.epoll ≡ some s'))
            × (k.interest l.epoll f ≢ none
                → (s' : k.State) × (k.ctl modify f events c l.epoll ≡ some s')))
          (sym h.descriptor) (willing l.epoll events))

    enable_lem :
        (l : Loop k.State)
        → Listens false l
        → (l' : Loop k.State) × (enable_reading k l c ≡ some l') × Listens true l'
    unfolding enable_reading
    enable_lem l h =
        let (l', e, u) = masked false read_event l h in
        (
          l',
          ap (λ m. set_events k l c (bit_or m read_event)) h.mask ∙ e,
          record {
            sync = u.sync;
            descriptor = u.same_fd ∙ h.descriptor;
            still = u.handling ∙ h.still;
            mask = u.mask;
            listed = ap l'.channels (sym h.descriptor) ∙ u.listed;
            watched =
                ap (k.interest l'.epoll) (sym h.descriptor)
                ∙ u.watched (λ no. absurd (omega (arith, no)));
          },
        )

    stop_channel_lem :
        (on : Bool) (l : Loop k.State)
        → Listens on l
        → (l' : Loop k.State) × (stop_channel k l c ≡ some l') × Listens false l'
    unfolding stop_channel disable_all
    stop_channel_lem on l h =
        let (l₁, e, u) = masked on none_event l h in
        let still : l₁.event_handling ≡ false = u.handling ∙ h.still in
        let fd_of : (l₁.channel c).fd ≡ fd = u.same_fd ∙ h.descriptor in
        let may : MayRemove k l₁ c =
          ap
            (λ b.
              not b
              || (is_channel l₁.current_active_channel c || not (contains l₁.active_channels c)))
            still in
        let (l₂, f, r) =
          remove_lem k l₁ c u.sync (listed_old l₁ u.sync (ap l₁.channels u.same_fd ∙ u.listed))
            u.mask may in
        (
          l₂,
          ap (λ o. o >>= λ l'. remove k l' c) e ∙ f,
          record {
            sync = r.sync;
            descriptor = r.same_fd ∙ fd_of;
            still = r.handling ∙ still;
            mask = r.mask ∙ u.mask;
            listed = ap l₂.channels (sym fd_of) ∙ r.unlisted;
            watched = ap (k.interest l₂.epoll) (sym fd_of) ∙ r.unwatched;
          },
        )

    abbrev pub server : Bool → Loop k.State → DgramServer k
    server on l = record { started = on; loop = l }

    abbrev is_start : ServerCall → Bool
    is_start starts = true
    is_start stops = false

    serve_call_lem :
        (a : ServerCall) (on : Bool) (l : Loop k.State)
        → Listens on l
        → (l' : Loop k.State) × (serve_call k c a (server on l) ≡ some (server (is_start a) l'))
          × Listens (is_start a) l'
    unfolding serve_call
    serve_call_lem starts true l h = (l, refl, h)
    serve_call_lem starts false l h =
        let (l', e, h') = enable_lem l h in (l', ap (λ o. o >>= λ m. some (server true m)) e, h')
    serve_call_lem stops true l h =
        let (l', e, h') = stop_channel_lem true l h in
        (l', ap (λ o. o >>= λ m. some (server false m)) e, h')
    serve_call_lem stops false l h = (l, refl, h)

    -- The last of the calls decides whether the server is started.
    abbrev pub last_of : Bool → List ServerCall → Bool
    last_of on [] = on
    last_of on (a ∷ as') = last_of (is_start a) as'

    -- If poller and kernel are in step, no event is being handled and the kernel never refuses the
    -- descriptor, then any sequence of calls of start and stop of a server fails no assertion and is
    -- accepted by the kernel. After it the server is started if the last call was start, the channel is
    -- watched for reading if the server is started and in neither poller nor kernel if not, and both
    -- are in step.
    pub serve_calls_lem :
        (as' : List ServerCall) (on : Bool) (l : Loop k.State)
        → Listens on l
        → (l' : Loop k.State) × (serve_calls k c as' (server on l)
            ≡ some (server (last_of on as') l'))
          × Listens (last_of on as') l'
    unfolding serve_calls
    serve_calls_lem [] on l h = (l, refl, h)
    serve_calls_lem (a ∷ as') on l h =
        let (l₁, e, h₁) = serve_call_lem a on l h in
        let (l₂, f, h₂) = serve_calls_lem as' (is_start a) l₁ h₁ in
        (l₂, ap (λ o. o >>= serve_calls k c as') e ∙ f, h₂)

    stop_times_lem :
        (n : ℕ) (on : Bool) (l : Loop k.State)
        → Listens on l
        → (l' : Loop k.State) × (stop_times k c (suc n) l ≡ some l') × Listens false l'
    unfolding stop_times
    stop_times_lem zero on l h =
        let (l₁, e, h₁) = stop_channel_lem on l h in (l₁, ap (λ o. o >>= stop_times k c 0) e, h₁)
    stop_times_lem (suc n) on l h =
        let (l₁, e, h₁) = stop_channel_lem on l h in
        let (l₂, f, h₂) = stop_times_lem n false l₁ h₁ in
        (l₂, ap (λ o. o >>= stop_times k c (suc n)) e ∙ f, h₂)

    -- Under the same conditions a client or a listener that has been made and is stopped once or more
    -- often, its destructor included, fails no assertion, and its channel is in neither poller nor
    -- kernel.
    pub open_and_stop_lem :
        (n : ℕ) (l : Loop k.State)
        → Listens false l
        → (l' : Loop k.State) × (open_and_stop k c (suc n) l ≡ some l') × Listens false l'
    unfolding open_and_stop
    open_and_stop_lem n l h =
        let (l₁, e, h₁) = enable_lem l h in
        let (l₂, f, h₂) = stop_times_lem n true l₁ h₁ in
        (l₂, ap (λ o. o >>= stop_times k c (suc n)) e ∙ f, h₂)
