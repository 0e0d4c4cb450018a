-- ===== src/Time/Fields.antt =====
-- time.rs: the two fields of a packed time.
use ruslock.Prelude.{ℕ, ◌*◌, ◌+◌, ◌%◌, ◌^◌, ◌<◌, ◌≡◌, refl, ap, ◌∙◌, arith, bit_and, bit_or}
use ruslock.Prelude.{bit_or_join, bit_and_ones, bit_or-lt, bit_and-bit_or, bit_or_again}
use ruslock.Time.{PackedTime, with_flags, value, flags, merge_flags}

-- A u32.
abbrev pub IsU32 : PackedTime → Type 0
IsU32 t = t.bits < 2 ^ 32

with_flags_bits : (v f : ℕ) → v < 2 ^ 16 → f < 2 ^ 16 → (with_flags v f).bits ≡ f * 2 ^ 16 + v
unfolding with_flags
with_flags_bits v f hv hf =
    let inside : f * 2 ^ 16 % 2 ^ 32 ≡ f * 2 ^ 16 = omega arith in rw inside (bit_or_join 16 f v hv)

pub value_low : (t : PackedTime) → value t ≡ t.bits % 2 ^ 16
unfolding value
value_low t = omega (arith, bit_and_ones 16 t.bits)

-- A time packed from a u16 value and u16 flags is a u32, and gives both back.
pub with_flags_fields :
    (v f : ℕ)
    → v < 2 ^ 16
    → f < 2 ^ 16
    → IsU32 (with_flags v f) × (value (with_flags v f) ≡ v) × (flags (with_flags v f) ≡ f)
unfolding flags
with_flags_fields v f hv hf = (
  omega (arith, with_flags_bits v f hv hf),
  omega (arith, with_flags_bits v f hv hf, value_low (with_flags v f)),
  omega (arith, with_flags_bits v f hv hf),
)

pub value-lt : (t : PackedTime) → value t < 2 ^ 16
value-lt t = omega (arith, value_low t)

pub flags-lt : (t : PackedTime) → flags t < 2 ^ 16
unfolding flags
flags-lt t = omega arith

-- `merge_flags` reads the two fields alone.
merge_flags_by_fields :
    (t u : PackedTime) (added : ℕ)
    → value t ≡ value u
    → bit_or (flags t) added ≡ bit_or (flags u) added
    → merge_flags t added ≡ merge_flags u added
unfolding merge_flags
merge_flags_by_fields t u added p q = rw (p, q) refl

-- Merging u16 flags into a time keeps its value and adds the flags to those it had; every merged
-- flag is set afterwards, and merging once more changes nothing.
pub merge_flags_fields :
    (t : PackedTime) (added : ℕ)
    → added < 2 ^ 16
    → (value (merge_flags t added) ≡ value t)
      × (flags (merge_flags t added) ≡ bit_or (flags t) added)
      × (bit_and (flags (merge_flags t added)) added ≡ added)
      × (merge_flags (merge_flags t added) added ≡ merge_flags t added)
merge_flags_fields t added h = (same, joined, rw joined (bit_and-bit_or (flags t) added), again)
  where
    parts :
        IsU32 (with_flags (value t) (bit_or (flags t) added))
        × (value (with_flags (value t) (bit_or (flags t) added)) ≡ value t)
        × (flags (with_flags (value t) (bit_or (flags t) added)) ≡ bit_or (flags t) added)
    parts =
        with_flags_fields (value t) (bit_or (flags t) added) (value-lt t)
          (bit_or-lt 16 (flags t) added (flags-lt t) h)

    same : value (merge_flags t added) ≡ value t
    same = unfold merge_flags in parts.1

    joined : flags (merge_flags t added) ≡ bit_or (flags t) added
    joined = unfold merge_flags in parts.2

    again : merge_flags (merge_flags t added) added ≡ merge_flags t added
    again =
        merge_flags_by_fields (merge_flags t added) t added same
          (ap (λ f. bit_or f added) joined ∙ bit_or_again (flags t) added)
