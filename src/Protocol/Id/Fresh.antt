-- ===== src/Protocol/Id/Fresh.antt =====
-- protocol/id.rs: the shape of a fresh identifier, and when two of them differ.
use ruslock.Prelude.{ℕ, ◌+◌, ◌*◌, ◌%◌, ◌^◌, ◌≡◌, ◌≢◌, refl, ap, arith, bit_and, bit_and_ones}
use ruslock.Prelude.{List, get_or, bytes_eq→≡, bytes_eq_refl, true}
use ruslock.Prelude.{◌↔◌}
use ruslock.Key.{IsArray16}
use ruslock.Protocol.Id.{Id16, new_id, id_eq}

counter_low : (n : ℕ) → bit_and (n % 2 ^ 32) 0x7fff_ffff ≡ n % 2 ^ 31
counter_low n = omega (arith, bit_and_ones 31 (n % 2 ^ 32))

-- A fresh identifier has 16 bytes.
pub new_id-IsArray16 : (timestamp random old : ℕ) → IsArray16 (new_id timestamp random old).0.bytes
unfolding new_id
new_id-IsArray16 timestamp random old = (refl, omega arith)

-- The number in bytes 12 to 15 of an identifier, high byte first.
counter_of : List ℕ → ℕ
counter_of bytes =
    ((get_or bytes 12 0 * 256 + get_or bytes 13 0) * 256 + get_or bytes 14 0) * 256
    + get_or bytes 15 0

counter_of-new_id : (t r old : ℕ) → counter_of (new_id t r old).0.bytes ≡ (old + 1) % 2 ^ 31
unfolding new_id counter_of
counter_of-new_id t r old = omega (arith, counter_low (old + 1))

-- Two identifiers of one process differ, whatever the clock and the random generator say, unless
-- the counter has gone through a multiple of 2 ^ 31 values between them.
pub new_id_differ :
    (t t' r r' old old' : ℕ)
    → (old + 1) % 2 ^ 31 ≢ (old' + 1) % 2 ^ 31
    → (new_id t r old).0 ≢ (new_id t' r' old').0
new_id_differ t t' r r' old old' h e = h (
    omega (
      arith,
      counter_of-new_id t r old,
      counter_of-new_id t' r' old',
      ap (λ (id : Id16). counter_of id.bytes) e,
    ))

-- The test on identifiers decides their equality.
pub id_eq_iff : (a b : Id16) → (id_eq a b ≡ true) ↔ (a ≡ b)
unfolding id_eq
id_eq_iff a b = (
  λ h. ap (λ bytes. record { bytes = bytes }) (bytes_eq→≡ a.bytes b.bytes h),
  λ e. rw e (bytes_eq_refl b.bytes),
)
