-- ===== src/Prelude/Int.antt =====
-- Signed integers, and the two's complement reading of a word.
use Prim.Native.Nat.{ℕ, suc, ◌-◌, ◌<◌, ◌^◌}
use mathlib.Core.Path.{◌≡◌}
use native.Mathlib.Omega.{arith}
use ruslock.Prelude.Tests.{ltb, if◌then◌else◌}

-- `negsuc n` is -(n + 1).
pub data ℤ : Type 0 where
  pos : ℕ → ℤ
  negsuc : ℕ → ℤ

-- An `i64`: -2 ^ 63 to 2 ^ 63 - 1.
abbrev pub IsI64 : ℤ → Type 0
IsI64 (pos n) = n < 2 ^ 63
IsI64 (negsuc n) = n < 2 ^ 63

-- `value as u64`.
unfoldable pub i64_bits : ℤ → ℕ
i64_bits (pos n) = n
i64_bits (negsuc n) = 2 ^ 64 - suc n

-- `bits as i64`.
unfoldable pub bits_i64 : ℕ → ℤ
bits_i64 w = if ltb w (2 ^ 63) then pos w else negsuc (2 ^ 64 - w - 1)

pub i64_bits-lt : (v : ℤ) → IsI64 v → i64_bits v < 2 ^ 64
unfolding i64_bits
i64_bits-lt (pos n) h = omega arith
i64_bits-lt (negsuc n) h = omega arith

pub bits_i64-i64_bits : (v : ℤ) → IsI64 v → bits_i64 (i64_bits v) ≡ v
unfolding i64_bits bits_i64
bits_i64-i64_bits (pos n) h = ground arith
bits_i64-i64_bits (negsuc n) h = ground arith
