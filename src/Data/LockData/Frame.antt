-- ===== src/Data/LockData/Frame.antt =====
-- data/lock_data.rs: the shape of an encoded block, and when encoding succeeds.
use ruslock.Prelude.{ℕ, zero, suc, ◌+◌, ◌*◌, ◌%◌, ◌^◌, ◌<◌, ◌≡◌, refl, arith}
use ruslock.Prelude.{List, ◌∷◌, ◌++◌}
use ruslock.Prelude.{bit_and, bit_or_join, bit_and_ones, length}
use ruslock.Prelude.{to_le_bytes}
use ruslock.Error.{ok, Returns}
use ruslock.Data.LockData.{type_byte, encode_frame}

high_bits_table : (s : ℕ) → s < 4 → bit_and (s * 64) 0xc0 ≡ s * 64
high_bits_table zero h = refl
high_bits_table (suc zero) h = refl
high_bits_table (suc (suc zero)) h = refl
high_bits_table (suc (suc (suc zero))) h = refl
high_bits_table (suc (suc (suc (suc s)))) h = absurd (omega arith)

-- The packed byte holds the two low bits of the stage above the six low bits of the type.
pub type_byte_fields : (s t : ℕ) → type_byte s t ≡ s % 4 * 64 + t % 64
unfolding type_byte
type_byte_fields s t =
    let shifted : s * 2 ^ 6 % 256 ≡ s % 4 * 64 = omega arith in
    rw (shifted, high_bits_table (s % 4) (omega arith), bit_and_ones 6 t)
      (bit_or_join 6 (s % 4) (t % 64) (omega arith))

-- The frame of docs/Architecture.md 4.
abbrev pub frame_of : ℕ → ℕ → ℕ → List ℕ → List ℕ
frame_of s t f payload = to_le_bytes 4 (length payload + 2) ++ (type_byte s t ∷ f ∷ payload)

pub encode_frame_fits :
    (s t f : ℕ) (payload : List ℕ)
    → length payload + 2 < 2 ^ 32
    → encode_frame s t f payload ≡ ok (frame_of s t f payload)
unfolding encode_frame
encode_frame_fits s t f payload h = ground arith

pub encode_frame-eq-ok :
    (s t f : ℕ) (payload frame : List ℕ)
    → encode_frame s t f payload ≡ ok frame
    → (length payload + 2 < 2 ^ 32) × (frame ≡ frame_of s t f payload)
unfolding encode_frame
encode_frame-eq-ok s t f payload frame h = ground arith

pub encode_frame-Returns : (s t f : ℕ) (payload : List ℕ) → Returns (encode_frame s t f payload)
unfolding encode_frame
encode_frame-Returns s t f payload = ground arith
