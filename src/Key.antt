-- ===== src/Key.antt =====
-- key.rs: lock keys of 16 bytes. The MD5 digest is the crate md-5, a parameter.
pub mod Normal
use ruslock.Prelude.{ℕ, ◌-◌, ◌≡◌, List, ltb, if◌then◌else◌}
use ruslock.Prelude.{length, replicate, write_at, All, IsByte}

pub record Key16 : Type 0 where
  pub bytes : List ℕ

-- `[u8; 16]`.
abbrev pub IsArray16 : List ℕ → Type 0
IsArray16 bytes = (length bytes ≡ 16) × All IsByte bytes

-- `Key16::new`: a long key is digested, a short one is right-aligned in zeros.
unfoldable pub new_key : (List ℕ → List ℕ) → List ℕ → Key16
new_key md5 key =
    if ltb 16 (length key)
    then record { bytes = md5 key }
    else record { bytes = write_at (replicate 16 0) (16 - length key) key }

unfoldable pub key_from_bytes : List ℕ → Key16
key_from_bytes bytes = record { bytes = bytes }

unfoldable pub key_as_bytes : Key16 → List ℕ
key_as_bytes key = key.bytes
