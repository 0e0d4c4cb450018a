-- ===== src/Time.antt =====
-- time.rs: a time value in the low 16 bits of a word and its flags in the high 16 bits.
pub mod Fields
use ruslock.Prelude.{ℕ, ◌*◌, ◌/◌, ◌%◌, ◌^◌, bit_and, bit_or}

pub record PackedTime : Type 0 where
  pub bits : ℕ

-- `PackedTime::new`.
unfoldable pub new_time : ℕ → PackedTime
new_time value = record { bits = value }

-- `(flags as u32) << 16` drops what passes bit 31.
unfoldable pub with_flags : ℕ → ℕ → PackedTime
with_flags value flags = record { bits = bit_or (flags * 2 ^ 16 % 2 ^ 32) value }

unfoldable pub from_bits : ℕ → PackedTime
from_bits bits = record { bits = bits }

unfoldable pub value : PackedTime → ℕ
value t = bit_and t.bits 0xffff % 2 ^ 16

unfoldable pub flags : PackedTime → ℕ
flags t = t.bits / 2 ^ 16 % 2 ^ 16

unfoldable pub merge_flags : PackedTime → ℕ → PackedTime
unfolding with_flags value flags
merge_flags t added = with_flags (value t) (bit_or (flags t) added)
