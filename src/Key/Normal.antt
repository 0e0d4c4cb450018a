-- ===== src/Key/Normal.antt =====
-- key.rs: what normalisation makes of a key.
use ruslock.Prelude.{ℕ, zero, suc, ◌+◌, ◌-◌, ◌≤◌, ◌≡◌, refl, ap, ◌∙◌, List, ◌∷◌, ◌++◌, arith}
use ruslock.Prelude.{ltb, ltb→le, ltb→lt, Bool-cases, inl, inr, length, take, replicate}
use ruslock.Prelude.{length-append, length-replicate, All, All-append, IsByte}
use mathlib.Core.List.{append-nil}
use ruslock.Key.{IsArray16, new_key, key_as_bytes}

take-replicate : (n k b : ℕ) → n ≤ k → take n (replicate k b) ≡ replicate n b
take-replicate zero k b h = refl
take-replicate (suc n) zero b h = absurd (omega arith)
take-replicate (suc n) (suc k) b h = ap (λ t. b ∷ t) (take-replicate n k b (omega arith))

All-replicate : (n : ℕ) → All IsByte (replicate n 0)
All-replicate zero = tt
All-replicate (suc n) = (omega arith, All-replicate n)

-- A key of at most 16 bytes becomes that key behind as many zeros as make 16 bytes.
pub short_key :
    (md5 : List ℕ → List ℕ) (key : List ℕ)
    → length key ≤ 16
    → (new_key md5 key).bytes ≡ replicate (16 - length key) 0 ++ key
unfolding new_key
short_key md5 key h = elim (Bool-cases (ltb 16 (length key))) [
  | inl long ↦ absurd (omega (arith, ltb→lt 16 (length key) long))
  | inr short ↦
      let room : 16 - length key + length key ≡ 16 = omega arith in
      rw (short, room, take-replicate (16 - length key) 16 0 (omega arith), append-nil)
]

-- A key of 16 bytes is normal already.
pub full_key :
    (md5 : List ℕ → List ℕ) (bytes : List ℕ) → length bytes ≡ 16 → (new_key md5 bytes).bytes ≡ bytes
full_key md5 bytes e = short_key md5 bytes (omega arith) ∙ rw e

long_key :
    (md5 : List ℕ → List ℕ) (key : List ℕ) → 17 ≤ length key → (new_key md5 key).bytes ≡ md5 key
unfolding new_key
long_key md5 key h = elim (Bool-cases (ltb 16 (length key))) [
  | inl long ↦ rw long
  | inr short ↦ absurd (omega (arith, ltb→le 16 (length key) short))
]

-- Where the digest of every byte string is 16 bytes, every key is normalised to 16 bytes, and
-- normalising them once more gives the same key.
pub new_key_stable :
    (md5 : List ℕ → List ℕ) (digest : (bytes : List ℕ) → All IsByte bytes → IsArray16 (md5 bytes))
    (key : List ℕ)
    → All IsByte key
    → IsArray16 (new_key md5 key).bytes
      × (new_key md5 (key_as_bytes (new_key md5 key)) ≡ new_key md5 key)
new_key_stable md5 digest key h = (shape, stable)
  where
    shape : IsArray16 (new_key md5 key).bytes
    shape = elim (Bool-cases (ltb 16 (length key))) [
      | inl long ↦ rw (long_key md5 key (ltb→lt 16 (length key) long)) (digest key h)
      | inr short ↦ rw (short_key md5 key (ltb→le 16 (length key) short)) (
        omega (
          arith,
          length-append (replicate (16 - length key) 0) key,
          length-replicate {A = ℕ} (16 - length key) 0,
          ltb→le 16 (length key) short,
        ),
        All-append IsByte (replicate (16 - length key) 0) key (All-replicate (16 - length key)) h,
      )
    ]

    stable : new_key md5 (key_as_bytes (new_key md5 key)) ≡ new_key md5 key
    stable =
        unfold key_as_bytes in
        ap (λ bytes. record { bytes = bytes }) (full_key md5 (new_key md5 key).bytes shape.0)
