-- ===== src/Datagram/Tests.antt =====
-- A server, a listener and a datagram on the kernel of the poller's tests.
use toy_basket.Prelude.{
  ℕ, List, [], ◌∷◌, replicate, take, slice, true, false, Option, none, some, store, ◌≡◌, refl, ap,
  arith, Option-cases, inl, inr,
}
use toy_basket.Poller.{Loop, add, modify}
use toy_basket.Poller.Tests.{kernel, empty_loop, empty_loop-IsSync, set_entry}
use toy_basket.Buffer.{Buffer}
use toy_basket.InetAddress.{InetAddress}
use toy_basket.Datagram.{
  starts, stops, serve_calls, open_and_stop, failed, received, listener_handle_read, nothing,
  message,
}
use toy_basket.Datagram.Calls.{Listens, IsWilling, serve_calls_lem, open_and_stop_lem}
use toy_basket.Datagram.Receive.{listener_lem}

willing : IsWilling kernel 3 3
willing s events = (
  λ e. (store s 3 (some (events, 3)), ap (λ w. set_entry add 3 events 3 w s) e),
  λ ne. elim (Option-cases (s 3)) [
    | inl e ↦ absurd (ne e)
    | inr there ↦ (store s 3 (some (events, 3)), ap (λ w. set_entry modify 3 events 3 w s) there.1)
  ],
)

listening : Listens kernel 3 3 false empty_loop
listening = record {
  sync = empty_loop-IsSync;
  descriptor = refl;
  still = refl;
  mask = refl;
  listed = refl;
  watched = refl;
}

serve_calls_lem_example :
    (l' : Loop (ℕ → Option (ℕ × ℕ))) × (serve_calls kernel 3
        (starts ∷ starts ∷ stops ∷ starts ∷ [])
        (record { started = false; loop = empty_loop })
      ≡ some (record { started = true; loop = l' }))
    × Listens kernel 3 3 true l'
serve_calls_lem_example =
    serve_calls_lem kernel 3 3 willing (starts ∷ starts ∷ stops ∷ starts ∷ []) false empty_loop
      listening

open_and_stop_lem_example :
    (l' : Loop (ℕ → Option (ℕ × ℕ))) × (open_and_stop kernel 3 2 empty_loop ≡ some l')
    × Listens kernel 3 3 false l'
open_and_stop_lem_example = open_and_stop_lem kernel 3 3 willing 1 empty_loop listening

abbrev sender : List ℕ
sender = 10 ∷ 0 ∷ replicate 26 9

listener_lem_example :
    (listener_handle_read (replicate 94 170) (replicate 112 0) failed ≡ none)
    × (listener_handle_read (replicate 94 170) (replicate 112 0) (received [] sender)
        ≡ some nothing)
    × ((src : InetAddress) × (listener_handle_read
            (replicate 94 170)
            (replicate 112 0)
            (received (1 ∷ 2 ∷ []) sender)
          ≡ some (message src (1 ∷ 2 ∷ [])))
        × (slice 0 16 src ≡ take 16 sender)
        × (slice 16 94 src ≡ replicate 94 170))
listener_lem_example =
    listener_lem sender (replicate 94 170) (omega arith) refl (replicate 112 0) refl (1 ∷ 2 ∷ [])
      (omega arith) (omega arith)

-- An empty buffer of twelve bytes.
abbrev small_buffer : Buffer
small_buffer = record { buffer = replicate 12 0; reader_index = 8; writer_index = 8 }
