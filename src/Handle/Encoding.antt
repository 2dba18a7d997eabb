-- ===== src/Handle/Encoding.antt =====
-- The fields of a handle value.
use layer_mount.Base.{ℕ, ◌<◌, ◌≡◌, arith}
use layer_mount.Handle.{encode, decode_magic, decode_generation, decode_slot}
use layer_mount.Handle.{slot_span, magic_span}

-- A magic of 16 bits, a generation of 24 bits and a slot of 24 bits come back from the handle value
-- that they are encoded in, and the value fits in 64 bits.
pub decode-encode :
    (magic generation slot : ℕ)
    → magic < magic_span
    → generation < slot_span
    → slot < slot_span
    → (decode_magic (encode magic generation slot) ≡ magic)
      × (decode_generation (encode magic generation slot) ≡ generation)
      × (decode_slot (encode magic generation slot) ≡ slot)
      × (encode magic generation slot < 18446744073709551616)
unfolding encode decode_magic decode_generation decode_slot
decode-encode magic generation slot m g s =
    (omega (arith, m, g, s), omega (arith, m, g, s), omega (arith, m, g, s), omega (arith, m, g, s))
