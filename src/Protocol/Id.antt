-- ===== src/Protocol/Id.antt =====
-- protocol/id.rs: identifiers of 16 bytes. The clock and the random generator are arguments, and
-- the process-wide counter is passed along.
pub mod Fresh
use ruslock.Prelude.{ℕ, ◌+◌, ◌/◌, ◌%◌, ◌^◌, List, [], ◌∷◌, Bool, bit_and, replicate, bytes_eq}

pub record Id16 : Type 0 where
  pub bytes : List ℕ

-- `(n >> k) as u8`.
abbrev pub byte_at : ℕ → ℕ → ℕ
byte_at n k = n / 2 ^ k % 256

-- `Id16::new`, from the milliseconds since the epoch, a random u64 and the value of ID_COUNTER;
-- the second part is the counter's next value. `fetch_add` and `wrapping_add` wrap at 32 bits.
unfoldable pub new_id : ℕ → ℕ → ℕ → Id16 × ℕ
new_id timestamp rand_number old =
    let counter = bit_and ((old + 1) % 2 ^ 32) 0x7fff_ffff in
    (
      record {
        bytes =
            byte_at timestamp 40
            ∷ byte_at timestamp 32
            ∷ byte_at timestamp 24
            ∷ byte_at timestamp 16
            ∷ byte_at timestamp 8
            ∷ byte_at timestamp 0
            ∷ byte_at rand_number 40
            ∷ byte_at rand_number 32
            ∷ byte_at rand_number 24
            ∷ byte_at rand_number 16
            ∷ byte_at rand_number 8
            ∷ byte_at rand_number 0
            ∷ byte_at counter 24
            ∷ byte_at counter 16
            ∷ byte_at counter 8
            ∷ byte_at counter 0
            ∷ [];
      },
      (old + 1) % 2 ^ 32,
    )

unfoldable pub zero_id : Id16
zero_id = record { bytes = replicate 16 0 }

unfoldable pub id_from_bytes : List ℕ → Id16
id_from_bytes bytes = record { bytes = bytes }

unfoldable pub id_as_bytes : Id16 → List ℕ
id_as_bytes id = id.bytes

-- `==`, derived.
unfoldable pub id_eq : Id16 → Id16 → Bool
id_eq a b = bytes_eq a.bytes b.bytes
