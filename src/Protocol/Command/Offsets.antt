-- ===== src/Protocol/Command/Offsets.antt =====
-- protocol/command.rs: where a server finds the fields of a request.
use ruslock.Prelude.{ℕ, ◌<◌, ◌^◌, ◌≡◌, refl, ap, ◌∙◌, List, [], ◌∷◌, ◌++◌, arith}
use ruslock.Prelude.{length, length-append, to_le_bytes, from_le_bytes, length-to_le_bytes}
use ruslock.Prelude.{from-to_le_bytes}
use mathlib.Core.List.{append_assoc}
use ruslock.Constants.{magic, version}
use ruslock.Protocol.Codec.{at, slice}
use ruslock.Protocol.Codec.Fields.{slice-field, at-field}
use ruslock.Protocol.Command.{LockCommand, lock_header}
use ruslock.Protocol.Command.Layout.{LockSizes, lock_header-layout}

-- The numbers of a lock command fit their types.
pub record LockRanges (c : LockCommand) : Type 0 where
  pub timeout : c.timeout.bits < 2 ^ 32
  pub expired : c.expired.bits < 2 ^ 32
  pub count : c.count < 2 ^ 16

-- What docs/Architecture.md 3.3 says of a request header.
pub record LockFields (c : LockCommand) (h : List ℕ) : Type 0 where
  pub size : length h ≡ 64
  pub magic_byte : at h 0 ≡ magic
  pub version_byte : at h 1 ≡ version
  pub command_type : at h 2 ≡ c.command_type
  pub request_id : slice h 3 19 ≡ c.request_id.bytes
  pub flag : at h 19 ≡ c.flag
  pub db_id : at h 20 ≡ c.db_id
  pub lock_id : slice h 21 37 ≡ c.lock_id.bytes
  pub lock_key : slice h 37 53 ≡ c.lock_key.bytes
  pub timeout : from_le_bytes (slice h 53 57) ≡ c.timeout.bits
  pub expired : from_le_bytes (slice h 57 61) ≡ c.expired.bits
  pub count : from_le_bytes (slice h 61 63) ≡ c.count
  pub r_count : at h 63 ≡ c.r_count

module _ (c : LockCommand) (z : LockSizes c) where
  abbrev t : List ℕ
  t = to_le_bytes 4 c.timeout.bits

  abbrev x : List ℕ
  x = to_le_bytes 4 c.expired.bits

  abbrev n : List ℕ
  n = to_le_bytes 2 c.count

  abbrev upto_request : List ℕ
  upto_request = magic ∷ version ∷ c.command_type ∷ c.request_id.bytes

  abbrev upto_lock_id : List ℕ
  upto_lock_id = upto_request ++ (c.flag ∷ c.db_id ∷ c.lock_id.bytes)

  abbrev upto_key : List ℕ
  upto_key = upto_lock_id ++ c.lock_key.bytes

  size_request : length upto_request ≡ 19
  size_request = omega (arith, z.request_id)

  size_lock_id : length upto_lock_id ≡ 37
  size_lock_id = omega (
    arith,
    length-append upto_request (c.flag ∷ c.db_id ∷ c.lock_id.bytes),
    size_request,
    z.lock_id,
  )

  size_key : length upto_key ≡ 53
  size_key = omega (arith, length-append upto_lock_id c.lock_key.bytes, size_lock_id, z.lock_key)

  whole : lock_header c ≡ upto_key ++ (t ++ (x ++ (n ++ (c.r_count ∷ []))))
  whole = lock_header-layout c z ∙ simp append_assoc

  -- The rest of the header behind each offset, in one equation each.
  at_request :
      lock_header c
      ≡ (magic ∷ version ∷ c.command_type ∷ [])
        ++ (c.request_id.bytes
            ++ (c.flag
                ∷ c.db_id
                ∷ (c.lock_id.bytes ++ (c.lock_key.bytes ++ (t ++ (x ++ (n ++ (c.r_count ∷ []))))))))
  at_request = lock_header-layout c z

  at_flag :
      lock_header c
      ≡ upto_request
        ++ (c.flag
            ∷ c.db_id
            ∷ (c.lock_id.bytes ++ (c.lock_key.bytes ++ (t ++ (x ++ (n ++ (c.r_count ∷ [])))))))
  at_flag = at_request

  at_db_id :
      lock_header c
      ≡ (upto_request ++ (c.flag ∷ []))
        ++ (c.db_id
            ∷ (c.lock_id.bytes ++ (c.lock_key.bytes ++ (t ++ (x ++ (n ++ (c.r_count ∷ [])))))))
  at_db_id = at_request ∙ simp append_assoc

  at_lock_id :
      lock_header c
      ≡ (upto_request ++ (c.flag ∷ c.db_id ∷ []))
        ++ (c.lock_id.bytes ++ (c.lock_key.bytes ++ (t ++ (x ++ (n ++ (c.r_count ∷ []))))))
  at_lock_id = at_request ∙ simp append_assoc

  at_lock_key :
      lock_header c ≡ upto_lock_id ++ (c.lock_key.bytes ++ (t ++ (x ++ (n ++ (c.r_count ∷ [])))))
  at_lock_key = at_request ∙ simp append_assoc

  at_expired : lock_header c ≡ (upto_key ++ t) ++ (x ++ (n ++ (c.r_count ∷ [])))
  at_expired = at_request ∙ simp append_assoc

  at_count : lock_header c ≡ ((upto_key ++ t) ++ x) ++ (n ++ (c.r_count ∷ []))
  at_count = at_request ∙ simp append_assoc

  at_r_count : lock_header c ≡ (((upto_key ++ t) ++ x) ++ n) ++ (c.r_count ∷ [])
  at_r_count = at_request ∙ simp append_assoc

  size_t : length (upto_key ++ t) ≡ 57
  size_t = omega (arith, length-append upto_key t, size_key, length-to_le_bytes 4 c.timeout.bits)

  size_x : length ((upto_key ++ t) ++ x) ≡ 61
  size_x =
      omega (arith, length-append (upto_key ++ t) x, size_t, length-to_le_bytes 4 c.expired.bits)

  size_n : length (((upto_key ++ t) ++ x) ++ n) ≡ 63
  size_n =
      omega (arith, length-append ((upto_key ++ t) ++ x) n, size_x, length-to_le_bytes 2 c.count)

  -- A lock or unlock header of a command with 16-byte identifiers and numbers in range has 64
  -- bytes, and has every field of the command at the documented offset, numbers little-endian.
  pub lock_header_fields : LockRanges c → LockFields c (lock_header c)
  lock_header_fields fits = record {
    size =
        ap length at_r_count
        ∙ omega (arith, size_n, length-append (((upto_key ++ t) ++ x) ++ n) (c.r_count ∷ []));
    magic_byte = at-field [] magic _ 0 at_request refl;
    version_byte = at-field (magic ∷ []) version _ 1 at_request refl;
    command_type = at-field (magic ∷ version ∷ []) c.command_type _ 2 at_request refl;
    request_id =
        slice-field (magic ∷ version ∷ c.command_type ∷ []) c.request_id.bytes _ 3 19 at_request
          refl (omega (arith, z.request_id));
    flag = at-field upto_request c.flag _ 19 at_flag size_request;
    db_id =
        at-field (upto_request ++ (c.flag ∷ [])) c.db_id _ 20 at_db_id
          (omega (arith, size_request, length-append upto_request (c.flag ∷ [])));
    lock_id =
        slice-field (upto_request ++ (c.flag ∷ c.db_id ∷ [])) c.lock_id.bytes _ 21 37 at_lock_id
          (omega (arith, size_request, length-append upto_request (c.flag ∷ c.db_id ∷ [])))
          (omega (arith, z.lock_id));
    lock_key =
        slice-field upto_lock_id c.lock_key.bytes _ 37 53 at_lock_key size_lock_id
          (omega (arith, z.lock_key));
    timeout =
        ap from_le_bytes (
          slice-field upto_key t _ 53 57 whole size_key
            (omega (arith, length-to_le_bytes 4 c.timeout.bits)))
        ∙ from-to_le_bytes 4 c.timeout.bits fits.timeout;
    expired =
        ap from_le_bytes (
          slice-field (upto_key ++ t) x _ 57 61 at_expired size_t
            (omega (arith, length-to_le_bytes 4 c.expired.bits)))
        ∙ from-to_le_bytes 4 c.expired.bits fits.expired;
    count =
        ap from_le_bytes (
          slice-field ((upto_key ++ t) ++ x) n _ 61 63 at_count size_x
            (omega (arith, length-to_le_bytes 2 c.count)))
        ∙ from-to_le_bytes 2 c.count fits.count;
    r_count = at-field (((upto_key ++ t) ++ x) ++ n) c.r_count [] 63 at_r_count size_n;
  }
