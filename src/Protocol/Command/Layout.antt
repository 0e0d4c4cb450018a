-- ===== src/Protocol/Command/Layout.antt =====
-- protocol/command.rs: the request headers against the tables of docs/Architecture.md 3.1 to 3.3.
use ruslock.Prelude.{ℕ, zero, suc, ◌+◌, ◌≡◌, refl, ap, sym, ◌∙◌, List, [], ◌∷◌, ◌++◌, arith}
use ruslock.Prelude.{length, replicate, write_at, take-append, drop-append}
use ruslock.Prelude.{length-append, length-replicate, to_le_bytes, length-to_le_bytes}
use mathlib.Core.List.{append_assoc, append-nil}
use native.Mathlib.Nat.{zero-add, suc-add}
use ruslock.Constants.{magic, version, command_type_init, command_type_ping}
use ruslock.Protocol.Command.{
  InitCommand, PingCommand, LockCommand, init_header, ping_header, lock_header,
}

-- The tables: the fields in order, and zeros up to 64 bytes.
abbrev pub init_layout : InitCommand → List ℕ
init_layout c =
    magic
    ∷ version
    ∷ command_type_init
    ∷ (c.request_id.bytes ++ (c.client_id.bytes ++ replicate 29 0))

abbrev pub ping_layout : PingCommand → List ℕ
ping_layout c = magic ∷ version ∷ command_type_ping ∷ (c.request_id.bytes ++ replicate 45 0)

abbrev pub lock_layout : LockCommand → List ℕ
lock_layout c =
    magic
    ∷ version
    ∷ c.command_type
    ∷ (c.request_id.bytes
        ++ (c.flag
            ∷ c.db_id
            ∷ (c.lock_id.bytes
                ++ (c.lock_key.bytes
                    ++ (to_le_bytes 4 c.timeout.bits
                        ++ (to_le_bytes 4 c.expired.bits
                            ++ (to_le_bytes 2 c.count ++ (c.r_count ∷ []))))))))

-- `h` is filled with `pre` up to offset `m`, and has `rest` zeros behind it.
record IsFilled (h pre : List ℕ) (m rest : ℕ) : Type 0 where
  filled : h ≡ pre ++ replicate rest 0
  offset : length pre ≡ m

replicate-add : (k n b : ℕ) → replicate (k + n) b ≡ replicate k b ++ replicate n b
replicate-add zero n b = rw zero-add
replicate-add (suc k) n b = rw suc-add (ap (λ t. b ∷ t) (replicate-add k n b))

-- One more field, of `k` bytes, is written.
fill :
    {h pre : List ℕ} (m k rest : ℕ) (part : List ℕ)
    → IsFilled h pre m (k + rest)
    → length part ≡ k
    → IsFilled (write_at h m part) (pre ++ part) (m + k) rest
fill {pre = pre} m k rest part f size = record {
  filled =
      rw
        (
          f.filled,
          take-append pre (replicate (k + rest) 0) m f.offset,
          replicate-add,
          ← append_assoc pre (replicate k 0) (replicate rest 0),
          drop-append (pre ++ replicate k 0) (replicate rest 0) (m + length part) behind,
        )
        (sym (append_assoc pre part (replicate rest 0)));
  offset = omega (arith, length-append pre part, f.offset);
}
  where
    behind : length (pre ++ replicate {A = ℕ} k 0) ≡ m + length part
    behind =
        omega (arith, length-append pre (replicate k 0), length-replicate {A = ℕ} k 0, f.offset)

-- The fields have the sizes of their types.
pub record InitSizes (c : InitCommand) : Type 0 where
  pub request_id : length c.request_id.bytes ≡ 16
  pub client_id : length c.client_id.bytes ≡ 16

pub record LockSizes (c : LockCommand) : Type 0 where
  pub request_id : length c.request_id.bytes ≡ 16
  pub lock_id : length c.lock_id.bytes ≡ 16
  pub lock_key : length c.lock_key.bytes ≡ 16

start :
    (command_type : ℕ)
    → IsFilled
        (magic ∷ version ∷ command_type ∷ replicate 61 0)
        (magic ∷ version ∷ command_type ∷ [])
        3
        61
start command_type = record { filled = refl; offset = refl }

-- The header of a lock or unlock request is the table of section 3.3, field by field.
pub lock_header-layout : (c : LockCommand) → LockSizes c → lock_header c ≡ lock_layout c
unfolding lock_header
lock_header-layout c z =
    let f3 = fill 3 16 45 c.request_id.bytes (start c.command_type) z.request_id in
    let f19 = fill 19 1 44 (c.flag ∷ []) f3 refl in
    let f20 = fill 20 1 43 (c.db_id ∷ []) f19 refl in
    let f21 = fill 21 16 27 c.lock_id.bytes f20 z.lock_id in
    let f37 = fill 37 16 11 c.lock_key.bytes f21 z.lock_key in
    let f53 =
      fill 53 4 7 (to_le_bytes 4 c.timeout.bits) f37 (length-to_le_bytes 4 c.timeout.bits) in
    let f57 =
      fill 57 4 3 (to_le_bytes 4 c.expired.bits) f53 (length-to_le_bytes 4 c.expired.bits) in
    let f61 = fill 61 2 1 (to_le_bytes 2 c.count) f57 (length-to_le_bytes 2 c.count) in
    let f63 = fill 63 1 0 (c.r_count ∷ []) f61 refl in f63.filled ∙ simp (append_assoc, append-nil)

-- The header of an init request is the table of section 3.1.
pub init_header-layout : (c : InitCommand) → InitSizes c → init_header c ≡ init_layout c
unfolding init_header
init_header-layout c z =
    let f3 = fill 3 16 45 c.request_id.bytes (start command_type_init) z.request_id in
    let f19 = fill 19 16 29 c.client_id.bytes f3 z.client_id in f19.filled ∙ simp (append_assoc)

-- The header of a ping request is the table of section 3.2.
pub ping_header-layout :
    (c : PingCommand) → length c.request_id.bytes ≡ 16 → ping_header c ≡ ping_layout c
unfolding ping_header
ping_header-layout c z =
    let f3 = fill 3 16 45 c.request_id.bytes (start command_type_ping) z in
    f3.filled ∙ simp (append_assoc)

length-lock_layout : (c : LockCommand) → LockSizes c → length (lock_layout c) ≡ 64
length-lock_layout c z =
    simp (length-append, length-to_le_bytes, z.request_id, z.lock_id, z.lock_key)
