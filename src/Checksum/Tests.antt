-- ===== src/Checksum/Tests.antt =====
-- The checksums of some buffers.
use toy_basket.Prelude.{[], ◌∷◌, ◌≡◌, ◌≢◌, refl, arith}
use toy_basket.Checksum.{serial_crc, component_crc, crc_loop}
use toy_basket.Checksum.Bounds.{crc_differs}

-- No bytes leave the initial value.
empty_crc : serial_crc [] ≡ 0xFFFFFFFF
unfolding serial_crc crc_loop
empty_crc = refl

crc_differs_example : component_crc (200 ∷ []) ≢ serial_crc (200 ∷ [])
crc_differs_example = crc_differs 200 (omega arith) (omega arith)
