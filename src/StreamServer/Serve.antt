-- ===== src/StreamServer/Serve.antt =====
-- A server in use: connections begin and end in any order.
use toy_basket.Prelude.{
  some_injective, ℕ, suc, ◌<◌, ◌≡◌, refl, sym, ap, subst, ◌∙◌, List, true, false, ◌==◌, ==_iff,
  none, some, store, store_same, store_other, same_text, same_text_eq, same_text_refl, assign,
  assign_same, assign_other, Bool-cases, Option-cases, ◌⊎◌, inl, inr, ltb, ltb→lt, ltb→le, arith,
  ◌^◌,
}
use toy_basket.StreamConnection.{StreamConnection}
use toy_basket.StreamServer.{StreamServer, conn_name}
use toy_basket.StreamServer.Names.{conn_name_injective}
use toy_basket.StreamServer.Valid.{is_up, IsUp, IsDown, IsValid, Fits, Distinct, down_not_up}

no_value {ℓ} : {A : Type ℓ} {a : A} → none ≡ some a → ⊥
no_value e = absurd cc

store_cases {ℓ} :
    {A : Type ℓ} (f : ℕ → A) (k : ℕ) (v : A) (j : ℕ)
    → ((k ≡ j) × (store f k v j ≡ v)) ⊎ (((k == j) ≡ false) × (store f k v j ≡ f j))
store_cases f k v j = elim (Bool-cases (k == j)) [
  | inl same ↦ inl ((==_iff k j).0 same, rw same refl)
  | inr other ↦ inr (other, store_other f k v j other)
]

assign_cases {ℓ} :
    {A : Type ℓ} (f : List ℕ → A) (k : List ℕ) (v : A) (j : List ℕ)
    → ((k ≡ j) × (assign f k v j ≡ v)) ⊎ ((same_text k j ≡ false) × (assign f k v j ≡ f j))
assign_cases f k v j = elim (Bool-cases (same_text k j)) [
  | inl same ↦ inl (same_text_eq k j same, rw same refl)
  | inr other ↦ inr (other, assign_other f k v j other)
]

module _ (decimal : ℕ → List ℕ) (s : StreamServer) (v : IsValid decimal s) where
  abbrev pub key_of : ℕ → List ℕ
  key_of = conn_name decimal s.name s.ip_port

  known : (id : ℕ) (c : StreamConnection) → s.live id ≡ some c → id < s.next_conn_id
  known id c e = elim (Bool-cases (ltb id s.next_conn_id)) [
    | inl given ↦ ltb→lt _ _ given
    | inr new_id ↦ absurd (no_value (sym (v.unborn id (ltb→le _ _ new_id)) ∙ e))
  ]

  pub no_entry :
      (bound : ℕ)
      → Distinct decimal
      → bound < 2 ^ 31
      → Fits decimal s.ip_port bound
      → s.next_conn_id < bound
      → s.connections (key_of s.next_conn_id) ≡ none
  no_entry bound distinct in_range fits small =
      elim (Option-cases (s.connections (key_of s.next_conn_id))) [
        | inl e ↦ e
        | inr (id, e) ↦
            let (same, c, there, up) = v.in_map (key_of s.next_conn_id) id e in
            let old : id < s.next_conn_id = known id c there in
            let hit : s.next_conn_id ≡ id =
              conn_name_injective decimal s.name s.ip_port s.next_conn_id id
                (distinct s.next_conn_id id (omega arith) (omega arith)) (fits s.next_conn_id small)
                (fits id (omega arith)) same in
            absurd (omega arith)
      ]

  pub accepted_IsValid :
      (c₁ : StreamConnection)
      → IsUp c₁
      → s.connections (key_of s.next_conn_id) ≡ none
      → IsValid decimal (record s {
        next_conn_id = suc s.next_conn_id;
        connections = assign s.connections (key_of s.next_conn_id) (some s.next_conn_id);
        live = store s.live s.next_conn_id (some c₁);
      })
  accepted_IsValid c₁ up empty =
      let k : ℕ = s.next_conn_id in
      record {
        unborn = λ id h.
            store_other s.live s.next_conn_id (some c₁) id (ground arith)
            ∙ v.unborn id (omega arith);
        in_map = λ key id e. elim (assign_cases s.connections (key_of k) (some k) key) [
          | inl (same, val) ↦
              let this : k ≡ id = some_injective (sym val ∙ e) in
              (
                sym same ∙ ap key_of this,
                c₁,
                ap (store s.live k (some c₁)) (sym this) ∙ store_same s.live k (some c₁),
                up,
              )
          | inr (_, val) ↦
              let (same, c, there, up') = v.in_map key id (sym val ∙ e) in
              let old : id < s.next_conn_id = known id c there in
              (same, c, store_other s.live s.next_conn_id (some c₁) id (ground arith) ∙ there, up')
        ];
        alive = λ id c e. elim (store_cases s.live k (some c₁) id) [
          | inl (same, val) ↦ inl (
            subst IsUp (some_injective (sym val ∙ e)) up,
            ap (λ i. assign s.connections (key_of k) (some k) (key_of i)) (sym same)
                ∙ assign_same s.connections (key_of k) (some k)
                ∙ ap some same,
            ap s.pending (sym same) ∙ v.gone k (v.unborn k (omega arith)),
          )
          | inr (_, val) ↦ elim (v.alive id c (sym val ∙ e)) [
            | inl (up', there, p) ↦ inl (
              up',
              elim (assign_cases s.connections (key_of k) (some k) (key_of id)) [
                | inl (same, _) ↦ absurd (no_value (sym empty ∙ ap s.connections same ∙ there))
                | inr (_, other) ↦ other ∙ there
              ],
              p,
            )
            | inr d ↦ inr d
          ]
        ];
        gone = λ id e. elim (store_cases s.live k (some c₁) id) [
          | inl (_, val) ↦ absurd (no_value (sym e ∙ val))
          | inr (_, val) ↦ v.gone id (sym val ∙ e)
        ];
      }

  module _ (id : ℕ) (c c₁ : StreamConnection) (here : s.live id ≡ some c) where
    pub closed_IsValid :
        s.connections (key_of id) ≡ some id
        → s.pending id ≡ 0
        → IsDown c₁
        → IsValid decimal (record s {
          live = store s.live id (some c₁);
          connections = assign s.connections (key_of id) none;
          pending = store s.pending id (suc (s.pending id));
        })
    closed_IsValid entry idle down =
        let old : id < s.next_conn_id = known id c here in
        record {
          unborn = λ j h. store_other s.live id (some c₁) j (ground arith) ∙ v.unborn j h;
          in_map = λ key j e. elim (assign_cases s.connections (key_of id) none key) [
            | inl (_, val) ↦ absurd (no_value (sym val ∙ e))
            | inr (differs, val) ↦
                let (same, c', there, up) = v.in_map key j (sym val ∙ e) in
                elim (store_cases s.live id (some c₁) j) [
                  | inl (this, _) ↦
                      let hit : same_text (key_of id) key ≡ true =
                        ap (same_text (key_of id)) (same ∙ ap key_of (sym this))
                        ∙ same_text_refl (key_of id) in
                      absurd cc
                  | inr (_, val') ↦ (same, c', val' ∙ there, up)
                ]
          ];
          alive = λ j c' e. elim (store_cases s.live id (some c₁) j) [
            | inl (this, val) ↦ inr (
              subst IsDown (some_injective (sym val ∙ e)) down,
              ap (store s.pending id (suc (s.pending id))) (sym this)
                  ∙ store_same s.pending id (suc (s.pending id))
                  ∙ ap suc idle,
            )
            | inr (other, val) ↦ elim (v.alive j c' (sym val ∙ e)) [
              | inl (up, there, p) ↦ inl (
                up,
                elim (assign_cases s.connections (key_of id) none (key_of j)) [
                  | inl (same, _) ↦
                      let this : id ≡ j =
                        some_injective (sym entry ∙ ap s.connections same ∙ there) in
                      let hit : (id == j) ≡ true = (==_iff id j).1 this in absurd cc
                  | inr (_, val') ↦ val' ∙ there
                ],
                store_other s.pending id (suc (s.pending id)) j other ∙ p,
              )
              | inr (d, p) ↦ inr (d, store_other s.pending id (suc (s.pending id)) j other ∙ p)
            ]
          ];
          gone = λ j e. elim (store_cases s.live id (some c₁) j) [
            | inl (_, val) ↦ absurd (no_value (sym e ∙ val))
            | inr (other, val) ↦
                store_other s.pending id (suc (s.pending id)) j other ∙ v.gone j (sym val ∙ e)
          ];
        }

    pub destroyed_IsValid :
        IsDown c
        → IsValid decimal (record s { live = store s.live id none; pending = store s.pending id 0 })
    destroyed_IsValid down = record {
      unborn = λ j h. elim (store_cases s.live id none j) [
        | inl (_, val) ↦ val
        | inr (_, val) ↦ val ∙ v.unborn j h
      ];
      in_map = λ key j e.
          let (same, c', there, up) = v.in_map key j e in
          elim (store_cases s.live id none j) [
            | inl (this, _) ↦
                let one : c ≡ c' = some_injective (sym here ∙ ap s.live this ∙ there) in
                let off : is_up c' ≡ false = ap is_up (sym one) ∙ down_not_up c down in
                let on : is_up c' ≡ true = up.0 in absurd cc
            | inr (_, val) ↦ (same, c', val ∙ there, up)
          ];
      alive = λ j c' e. elim (store_cases s.live id none j) [
        | inl (_, val) ↦ absurd (no_value (sym val ∙ e))
        | inr (other, val) ↦ elim (v.alive j c' (sym val ∙ e)) [
          | inl (up, there, p) ↦ inl (up, there, store_other s.pending id 0 j other ∙ p)
          | inr (d, p) ↦ inr (d, store_other s.pending id 0 j other ∙ p)
        ]
      ];
      gone = λ j e. elim (store_cases s.live id none j) [
        | inl (this, _) ↦ ap (store s.pending id 0) (sym this) ∙ store_same s.pending id 0
        | inr (other, val) ↦ store_other s.pending id 0 j other ∙ v.gone j (sym val ∙ e)
      ];
    }
