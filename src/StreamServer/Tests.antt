-- ===== src/StreamServer/Tests.antt =====
-- Short and long addresses, and the theorems at concrete inputs.
use toy_basket.Prelude.{
  ℕ, ◌<◌, ◌^◌, ◌≡◌, ap, List, [], ◌∷◌, none, some, length, replicate, length-replicate, arith,
}
use toy_basket.StreamServer.{StreamServer, new_stream_server, accepts, closes, destroys, serve_all}
use toy_basket.StreamServer.Valid.{IsValid}
use toy_basket.StreamServer.Safe.{serve_all-IsValid, second_connection_fails}

-- Stands for `%d`: as many strokes as the number says.
strokes : ℕ → List ℕ
strokes n = replicate n 49

strokes_injective : (i j : ℕ) → i < 2 ^ 31 → j < 2 ^ 31 → strokes i ≡ strokes j → i ≡ j
unfolding strokes
strokes_injective i j small small' e =
    omega (arith, ap length e, length-replicate {A = ℕ} i 49, length-replicate {A = ℕ} j 49)

serve_all-IsValid_example :
    (s : StreamServer) × (serve_all strokes
        (new_stream_server (115 ∷ []) (49 ∷ 58 ∷ 50 ∷ []))
        (accepts 7 ∷ accepts 8 ∷ closes 1 ∷ destroys 1 ∷ closes 2 ∷ [])
      ≡ some s)
    × IsValid strokes s
unfolding strokes
serve_all-IsValid_example =
    serve_all-IsValid strokes (115 ∷ []) (49 ∷ 58 ∷ 50 ∷ [])
      (accepts 7 ∷ accepts 8 ∷ closes 1 ∷ destroys 1 ∷ closes 2 ∷ []) strokes_injective
      (omega arith) (λ id small. omega (arith, small, length-replicate {A = ℕ} id 49))

second_connection_fails_example :
    serve_all strokes (new_stream_server [] (replicate 70 47)) (accepts 7 ∷ accepts 8 ∷ []) ≡ none
second_connection_fails_example =
    second_connection_fails strokes [] (replicate 70 47) 7 8 (omega arith)
