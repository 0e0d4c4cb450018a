-- ===== src/Prelude/Bits.antt =====
-- Bit operations at variables: `|` of disjoint fields, `&` with a mask of ones, absorption, bounds.
use Prim.Native.Nat.{ℕ, zero, suc, ◌+◌, ◌-◌, ◌*◌, ◌/◌, ◌%◌, ◌^◌, ◌≤◌, ◌<◌, bit_and, bit_or}
use Prim.Native.Nat.{min, max, bitwise, digits, bit_and-bitwise, bit_or-bitwise}
use mathlib.Core.Path.{◌≡◌, refl, ap}
use native.Mathlib.Nat.{pow-suc, one-le-pow}
use native.Mathlib.Omega.{arith}

-- The fuel of the defining recursion does not matter once it covers the first argument.
digits_enough :
    (z : ℕ → ℕ) (op : ℕ → ℕ → ℕ) (k m x y : ℕ)
    → x ≤ k
    → x ≤ m
    → digits z op k x y ≡ digits z op m x y
digits_enough z op zero zero zero y p q = refl
digits_enough z op zero zero (suc x) y p q = absurd (omega arith)
digits_enough z op zero (suc m) zero y p q = refl
digits_enough z op zero (suc m) (suc x) y p q = absurd (omega arith)
digits_enough z op (suc k) zero zero y p q = refl
digits_enough z op (suc k) zero (suc x) y p q = absurd (omega arith)
digits_enough z op (suc k) (suc m) zero y p q = refl
digits_enough z op (suc k) (suc m) (suc x) y p q =
    rw (digits_enough z op k m (suc x / 2) (y / 2) (omega arith) (omega arith))

bitwise_halve :
    (z : ℕ → ℕ) (op : ℕ → ℕ → ℕ) (x y : ℕ)
    → bitwise z op (suc x) y ≡ bitwise z op (suc x / 2) (y / 2) * 2 + op (suc x % 2) (y % 2)
bitwise_halve z op x y =
    omega (arith, digits_enough z op x (suc x / 2) (suc x / 2) (y / 2) (omega arith) (omega arith))

pub bit_or_halve : (x y : ℕ) → bit_or x y ≡ bit_or (x / 2) (y / 2) * 2 + max (x % 2) (y % 2)
bit_or_halve zero y = simp bit_or-bitwise (omega arith)
bit_or_halve (suc x) y = simp bit_or-bitwise (bitwise_halve (λ n. n) max x y)

pub bit_and_halve : (x y : ℕ) → bit_and x y ≡ bit_and (x / 2) (y / 2) * 2 + min (x % 2) (y % 2)
bit_and_halve zero y = simp bit_and-bitwise (omega arith)
bit_and_halve (suc x) y = simp bit_and-bitwise (bitwise_halve (λ n. 0) min x y)

bit_or-zero_below : (n a : ℕ) → a ≤ n → bit_or a 0 ≡ a
bit_or-zero_below n zero h = refl
bit_or-zero_below zero (suc a) h = absurd (omega arith)
bit_or-zero_below (suc n) (suc a) h =
    omega (arith, bit_or_halve (suc a) 0, bit_or-zero_below n (suc a / 2) (omega arith))

pub bit_or-zero : (a : ℕ) → bit_or a 0 ≡ a
bit_or-zero a = bit_or-zero_below a a (omega arith)

bit_and-zero_below : (n a : ℕ) → a ≤ n → bit_and a 0 ≡ 0
bit_and-zero_below n zero h = refl
bit_and-zero_below zero (suc a) h = absurd (omega arith)
bit_and-zero_below (suc n) (suc a) h =
    omega (arith, bit_and_halve (suc a) 0, bit_and-zero_below n (suc a / 2) (omega arith))

pub bit_and-zero : (a : ℕ) → bit_and a 0 ≡ 0
bit_and-zero a = bit_and-zero_below a a (omega arith)

shift_double : (q k : ℕ) → q * 2 ^ suc k ≡ 2 * (q * 2 ^ k)
shift_double q k = omega (arith, ap (λ (t : ℕ). q * t) (pow-suc 2 k))

-- A low field of `k` bits joined by `|` to a field above it is added.
pub bit_or_join : (k q r : ℕ) → r < 2 ^ k → bit_or (q * 2 ^ k) r ≡ q * 2 ^ k + r
bit_or_join zero q r h = ground (arith, bit_or-zero q)
bit_or_join (suc k) q r h =
    ground (
      arith,
      bit_or_halve (q * 2 ^ suc k) r,
      shift_double q k,
      bit_or_join k q (r / 2) (omega arith),
    )

bit_and_low : (k q r : ℕ) → r < 2 ^ k → bit_and (q * 2 ^ k + r) (2 ^ k - 1) ≡ r
bit_and_low zero q r h = rw bit_and-zero (omega arith)
bit_and_low (suc k) q r h = ground (
  arith,
  bit_and_halve (q * 2 ^ suc k + r) (2 ^ suc k - 1),
  shift_double q k,
  pow-suc 2 k,
  bit_and_low k q (r / 2) (omega arith),
)

-- `&` with `k` ones keeps the `k` low bits.
pub bit_and_ones : (k a : ℕ) → bit_and a (2 ^ k - 1) ≡ a % 2 ^ k
bit_and_ones k a = ground (arith, one-le-pow k 2, bit_and_low k (a / 2 ^ k) (a % 2 ^ k))

-- `|` of two words of `k` bits fits `k` bits.
pub bit_or-lt : (k a b : ℕ) → a < 2 ^ k → b < 2 ^ k → bit_or a b < 2 ^ k
bit_or-lt zero zero zero p q = omega arith
bit_or-lt zero zero (suc b) p q = absurd (omega arith)
bit_or-lt zero (suc a) b p q = absurd (omega arith)
bit_or-lt (suc k) a b p q = omega (
  arith,
  pow-suc 2 k,
  bit_or_halve a b,
  bit_or-lt k (a / 2) (b / 2) (omega (arith, pow-suc 2 k)) (omega (arith, pow-suc 2 k)),
)

bit_and-bit_or_below : (n a b : ℕ) → b ≤ n → bit_and (bit_or a b) b ≡ b
bit_and-bit_or_below n a zero h = bit_and-zero (bit_or a 0)
bit_and-bit_or_below zero a (suc b) h = absurd (omega arith)
bit_and-bit_or_below (suc n) a (suc b) h =
    let upper : bit_or a (suc b) / 2 ≡ bit_or (a / 2) (suc b / 2) =
      omega (arith, bit_or_halve a (suc b)) in
    let lower : bit_or a (suc b) % 2 ≡ max (a % 2) (suc b % 2) =
      omega (arith, bit_or_halve a (suc b)) in
    let rest : bit_and (bit_or a (suc b) / 2) (suc b / 2) ≡ suc b / 2 =
      rw upper (bit_and-bit_or_below n (a / 2) (suc b / 2) (omega arith)) in
    omega (arith, bit_and_halve (bit_or a (suc b)) (suc b), rest, lower)

-- The bits that `|` sets are set.
pub bit_and-bit_or : (a b : ℕ) → bit_and (bit_or a b) b ≡ b
bit_and-bit_or a b = bit_and-bit_or_below b a b (omega arith)

bit_or_again_below : (n a b : ℕ) → b ≤ n → bit_or (bit_or a b) b ≡ bit_or a b
bit_or_again_below n a zero h = bit_or-zero (bit_or a 0)
bit_or_again_below zero a (suc b) h = absurd (omega arith)
bit_or_again_below (suc n) a (suc b) h =
    let upper : bit_or a (suc b) / 2 ≡ bit_or (a / 2) (suc b / 2) =
      omega (arith, bit_or_halve a (suc b)) in
    let rest : bit_or (bit_or a (suc b) / 2) (suc b / 2) ≡ bit_or (a / 2) (suc b / 2) =
      rw upper (bit_or_again_below n (a / 2) (suc b / 2) (omega arith)) in
    omega (arith, bit_or_halve (bit_or a (suc b)) (suc b), rest, bit_or_halve a (suc b))

-- Setting the same bits twice is setting them once.
pub bit_or_again : (a b : ℕ) → bit_or (bit_or a b) b ≡ bit_or a b
bit_or_again a b = bit_or_again_below b a b (omega arith)
