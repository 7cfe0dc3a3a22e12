-- ===== src/StreamServer/Safe.antt =====
-- Any sequence of events: with names that fit, no assertion fails; with an address that fills them,
-- the second connection stops the server.
use toy_basket.Prelude.{
  ℕ, suc, ◌+◌, ◌≤◌, ◌<◌, ◌≡◌, refl, sym, ap, subst, ◌∙◌, List, [], ◌∷◌, true, false, none, some,
  ◌>>=◌, ◌>>◌, check, if◌then◌else◌, length, store, assign, assign_same, ◌||◌, Option-cases, inl,
  inr, arith, lt→ltb, ◌^◌,
}
use toy_basket.StreamConnection
use toy_basket.StreamConnection.{
  StreamConnection, connect_established, handle_close, is_disconnected, is_connected,
  is_disconnecting, StateE, k_connected, k_disconnecting, k_disconnected, k_connecting,
}
use toy_basket.StreamServer.{
  StreamServer, conn_name, released, accepted, new_connection, is_found, remove_connection_in_loop,
  close_live, close_watched, close_connection, destroy_live, destructed, run_destroyed, Event,
  accepts, closes, destroys, serve, serve_all, new_stream_server,
}
use toy_basket.StreamServer.Valid.{IsValid, Fits, Distinct, established_lem, close_lem, destroy_lem}
use toy_basket.StreamServer.Names.{conn_name_long}
use toy_basket.StreamServer.Serve.{no_entry, accepted_IsValid, closed_IsValid, destroyed_IsValid}

up_not_down :
    (s : StateE) → (is_connected s || is_disconnecting s) ≡ true → is_disconnected s ≡ false
up_not_down k_connected e = refl
up_not_down k_disconnecting e = refl
up_not_down k_disconnected e = cc
up_not_down k_connecting e = refl

-- How many connections the events begin.
abbrev pub begun : Event → ℕ
begun (accepts sockfd) = 1
begun (closes id) = 0
begun (destroys id) = 0

abbrev pub begins : List Event → ℕ
begins [] = 0
begins (e ∷ rest) = begun e + begins rest

module _ (decimal : ℕ → List ℕ) where
  new_connection_lem :
      (s : StreamServer) (sockfd bound : ℕ)
      → Distinct decimal
      → bound < 2 ^ 31
      → IsValid decimal s
      → Fits decimal s.ip_port bound
      → s.next_conn_id < bound
      → (s' : StreamServer) × (new_connection decimal s sockfd ≡ some s')
        × IsValid decimal s'
        × (s'.next_conn_id ≡ suc s.next_conn_id)
        × (s'.ip_port ≡ s.ip_port)
  unfolding new_connection
  new_connection_lem s sockfd bound distinct in_range v fits small =
      let (c, c₁, made, done, up) = established_lem sockfd in
      let empty : s.connections (conn_name decimal s.name s.ip_port s.next_conn_id) ≡ none =
        no_entry decimal s v bound distinct in_range fits small in
      (
        accepted decimal s s c₁,
        ap
              (λ b.
                check b
                >> (StreamConnection.new_connection sockfd >>= λ c.
                    released s (s.connections (conn_name decimal s.name s.ip_port s.next_conn_id))
                    >>= λ s₁. connect_established c >>= λ c₁. some (accepted decimal s s₁ c₁)))
              (lt→ltb (suc s.next_conn_id) (2 ^ 31) (omega (arith, small, in_range)))
            ∙ ap
                (λ o. o >>= λ c.
                  released s (s.connections (conn_name decimal s.name s.ip_port s.next_conn_id))
                  >>= λ s₁. connect_established c >>= λ c₁. some (accepted decimal s s₁ c₁))
                made
            ∙ ap
                (λ o. released s o >>= λ s₁.
                  connect_established c >>= λ c₁. some (accepted decimal s s₁ c₁))
                empty
            ∙ ap (λ o. o >>= λ c₁. some (accepted decimal s s c₁)) done,
        accepted_IsValid decimal s v c₁ up empty,
        refl,
        refl,
      )

  close_connection_lem :
      (s : StreamServer) (id : ℕ)
      → IsValid decimal s
      → (s' : StreamServer) × (close_connection decimal s id ≡ some s')
        × IsValid decimal s'
        × (s'.next_conn_id ≡ s.next_conn_id)
        × (s'.ip_port ≡ s.ip_port)
  unfolding close_connection remove_connection_in_loop
  close_connection_lem s id v = elim (Option-cases (s.live id)) [
    | inl nothing ↦ (s, ap (close_watched decimal s id) nothing, v, refl, refl)
    | inr (c, here) ↦ elim (v.alive id c here) [
      | inr (down, _) ↦ (
        s,
        ap (close_watched decimal s id) here
            ∙ ap (λ b. if b then some s else close_live decimal s id c) down.1,
        v,
        refl,
        refl,
      )
      | inl (up, entry, p) ↦
          let (c₁, done, down) = close_lem c up.0 in
          let s' : StreamServer = record s {
            live = store s.live id (some c₁);
            connections = assign s.connections (conn_name decimal s.name s.ip_port id) none;
            pending = store s.pending id (suc (s.pending id));
          } in
          (
            s',
            ap (close_watched decimal s id) here
                ∙ ap (λ b. if b then some s else close_live decimal s id c) up.1
                ∙ ap
                    (λ o. o >>= λ c₁.
                      remove_connection_in_loop decimal
                        (record s { live = store s.live id (some c₁) }) id)
                    done
                ∙ ap (λ o. check (is_found o) >> some s') entry,
            closed_IsValid decimal s v id c c₁ here entry p down,
            refl,
            refl,
          )
    ]
  ]

  run_destroyed_lem :
      (s : StreamServer) (id : ℕ)
      → IsValid decimal s
      → (s' : StreamServer) × (run_destroyed s id ≡ some s')
        × IsValid decimal s'
        × (s'.next_conn_id ≡ s.next_conn_id)
        × (s'.ip_port ≡ s.ip_port)
  unfolding run_destroyed
  run_destroyed_lem s id v = elim (Option-cases (s.live id)) [
    | inl nothing ↦ (s, ap (destroy_live s id (s.live id)) (v.gone id nothing), v, refl, refl)
    | inr (c, here) ↦ elim (v.alive id c here) [
      | inl (up, entry, p) ↦ (s, ap (destroy_live s id (s.live id)) p, v, refl, refl)
      | inr (down, p) ↦
          let (c₁, done, off) = destroy_lem c down in
          let s' : StreamServer = record s {
            live = store s.live id none;
            pending = store s.pending id 0;
          } in
          (
            s',
            ap (destroy_live s id (s.live id)) p
                ∙ ap (λ o. destroy_live s id o 1) here
                ∙ ap (λ o. o >>= λ c₁. destructed (some c₁) >> some s') done
                ∙ ap (λ b. check b >> some s') off,
            destroyed_IsValid decimal s v id c c₁ here down,
            refl,
            refl,
          )
    ]
  ]

  -- One event of any kind.
  serve_lem :
      (s : StreamServer) (e : Event) (bound : ℕ)
      → Distinct decimal
      → bound < 2 ^ 31
      → IsValid decimal s
      → Fits decimal s.ip_port bound
      → s.next_conn_id + begun e ≤ bound
      → (s' : StreamServer) × (serve decimal s e ≡ some s')
        × IsValid decimal s'
        × (s'.next_conn_id ≡ s.next_conn_id + begun e)
        × Fits decimal s'.ip_port bound
  unfolding serve
  serve_lem s (accepts sockfd) bound distinct in_range v fits small =
      let (s', done, v', next, same) =
        new_connection_lem s sockfd bound distinct in_range v fits (omega arith) in
      (s', done, v', omega (arith, next), subst (λ ip. Fits decimal ip bound) (sym same) fits)
  serve_lem s (closes id) bound distinct in_range v fits small =
      let (s', done, v', next, same) = close_connection_lem s id v in
      (s', done, v', omega (arith, next), subst (λ ip. Fits decimal ip bound) (sym same) fits)
  serve_lem s (destroys id) bound distinct in_range v fits small =
      let (s', done, v', next, same) = run_destroyed_lem s id v in
      (s', done, v', omega (arith, next), subst (λ ip. Fits decimal ip bound) (sym same) fits)

  serve_all_from :
      (s : StreamServer) (events : List Event) (bound : ℕ)
      → Distinct decimal
      → bound < 2 ^ 31
      → IsValid decimal s
      → Fits decimal s.ip_port bound
      → s.next_conn_id + begins events ≤ bound
      → (s' : StreamServer) × (serve_all decimal s events ≡ some s') × IsValid decimal s'
  unfolding serve_all
  serve_all_from s [] bound distinct in_range v fits small = (s, refl, v)
  serve_all_from s (e ∷ rest) bound distinct in_range v fits small =
      let (s₁, done, v₁, next, fits₁) =
        serve_lem s e bound distinct in_range v fits (omega arith) in
      let (s', all_done, v') =
        serve_all_from s₁ rest bound distinct in_range v₁ fits₁ (omega (arith, next)) in
      (s', ap (λ o. o >>= λ s'. serve_all decimal s' rest) done ∙ all_done, v')

  -- On a new server whose connection names fit the buffer of `snprintf`, in any sequence of fewer than
  -- 2^31 - 1 new connections, of events of channels that end connections, and of functors, no assertion
  -- fails and the number of the next connection does not overflow, if `%d` prints different numbers
  -- differently. Afterwards every connection
  -- object is up, its channel watched, under its name in the map and with no functor that destroys it, or down, out of
  -- the map and with exactly one.
  pub serve_all-IsValid :
      (name ip_port : List ℕ) (events : List Event)
      → Distinct decimal
      → 1 + begins events < 2 ^ 31
      → ((id : ℕ) → id < 1 + begins events → length ip_port + length (decimal id) ≤ 61)
      → (s : StreamServer) × (serve_all decimal (new_stream_server name ip_port) events ≡ some s)
        × IsValid decimal s
  unfolding new_stream_server
  serve_all-IsValid name ip_port events distinct in_range fits =
      serve_all_from (new_stream_server name ip_port) events (1 + begins events) distinct in_range
        (record {
          unborn = λ id h. refl;
          in_map = λ key id e. cc;
          alive = λ id c e. cc;
          gone = λ id e. refl;
        })
        fits (omega arith)

  -- If the address alone has 62 characters, the second connection of a new server gets the name of
  -- the first, which is destroyed while it is up: an assertion fails.
  pub second_connection_fails :
      (name ip_port : List ℕ) (a b : ℕ)
      → 62 ≤ length ip_port
      → serve_all decimal (new_stream_server name ip_port) (accepts a ∷ accepts b ∷ []) ≡ none
  unfolding serve_all serve new_connection new_stream_server
  second_connection_fails name ip_port a b long =
      let s : StreamServer = new_stream_server name ip_port in
      let (c, c₁, made, done, up) = established_lem a in
      let (d, d₁, made', done', up') = established_lem b in
      let s₁ : StreamServer = accepted decimal s s c₁ in
      let first : new_connection decimal s a ≡ some s₁ =
        ap (λ o. o >>= λ c. connect_established c >>= λ c₁. some (accepted decimal s s c₁)) made
        ∙ ap (λ o. o >>= λ c₁. some (accepted decimal s s c₁)) done in
      let taken : s₁.connections (conn_name decimal name ip_port 2) ≡ some 1 =
        ap s₁.connections (conn_name_long decimal name ip_port 2 1 long)
        ∙ assign_same s.connections (conn_name decimal name ip_port 1) (some 1) in
      ap (λ o. o >>= λ s'. new_connection decimal s' b >>= λ s''. some s'') first
      ∙ ap
          (λ o.
            (o >>= λ d. released s₁ (s₁.connections (conn_name decimal name ip_port 2)) >>= λ s₂.
            connect_established d >>= λ d₁. some (accepted decimal s₁ s₂ d₁))
            >>= λ s''. some s'')
          made'
      ∙ ap
          (λ o.
            (released s₁ o >>= λ s₂.
            connect_established d >>= λ d₁. some (accepted decimal s₁ s₂ d₁))
            >>= λ s''. some s'')
          taken
      ∙ ap
          (λ t.
            (((check t >> some (record s₁ { live = store s₁.live 1 none })) >>= λ s₂.
            connect_established d >>= λ d₁. some (accepted decimal s₁ s₂ d₁))
              >>= λ s''. some s''))
          (up_not_down c₁.state up.0)
