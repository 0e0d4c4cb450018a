-- ===== src/Protocol/Codec/Responses.antt =====
-- protocol/codec.rs: decoding the responses of docs/Architecture.md 3.1, 3.2 and 3.4, and
-- what is refused.
use ruslock.Prelude.{ℕ, ◌<◌, ◌^◌, ◌≡◌, ◌≢◌, refl, ap, ◌∙◌, List, [], ◌∷◌, ◌++◌, arith}
use ruslock.Prelude.{Option, ◌⊎◌, inl, inr, length, length-append}
use ruslock.Prelude.{to_le_bytes, from_le_bytes, length-to_le_bytes, from-to_le_bytes}
use mathlib.Core.Option
use mathlib.Core.List.{append_assoc}
use ruslock.Constants.{
  magic, version, command_type_init, command_type_ping, command_type_lock, command_type_unlock,
}
use ruslock.Error.{
  SlockError, ok, err, protocol, unknown_magic, unknown_version, unknown_command_type,
}
use ruslock.Protocol.Reply.{
  CommandResult, request_id, result_code, LockCommandResult, InitCommandResult, PingCommandResult,
  lock,
}
use ruslock.Protocol.Codec.{at, slice, decode_response, decode_lock, new_result_data}
use ruslock.Protocol.Codec.Fields.{slice-field, at-field}

-- A reply frame, as a server lays it out; `tail` is what the tables leave open.
abbrev pub lock_reply : LockCommandResult → List ℕ → List ℕ
lock_reply r tail =
    magic
    ∷ version
    ∷ r.command_type
    ∷ (r.request_id.bytes
        ++ (r.result
            ∷ r.flag
            ∷ r.db_id
            ∷ (r.lock_id.bytes
                ++ (r.lock_key.bytes
                    ++ (to_le_bytes 2 r.l_count
                        ++ (to_le_bytes 2 r.count ++ (r.lr_count ∷ r.r_count ∷ tail)))))))

abbrev pub init_reply : InitCommandResult → List ℕ → List ℕ
init_reply r tail =
    magic ∷ version ∷ command_type_init ∷ (r.request_id.bytes ++ (r.result ∷ r.init_type ∷ tail))

abbrev pub ping_reply : PingCommandResult → List ℕ → List ℕ
ping_reply r tail = magic ∷ version ∷ command_type_ping ∷ (r.request_id.bytes ++ (r.result ∷ tail))

-- The fields of a lock reply fit their types.
pub record ReplySizes (r : LockCommandResult) : Type 0 where
  pub request_id : length r.request_id.bytes ≡ 16
  pub lock_id : length r.lock_id.bytes ≡ 16
  pub lock_key : length r.lock_key.bytes ≡ 16
  pub l_count : r.l_count < 2 ^ 16
  pub count : r.count < 2 ^ 16

-- A header with the magic, the version and a lock type is read by `decode_lock`.
decode_accepts :
    (header : List ℕ) (extra : Option (List ℕ))
    → at header 0 ≡ magic
    → at header 1 ≡ version
    → (at header 2 ≡ command_type_lock) ⊎ (at header 2 ≡ command_type_unlock)
    → decode_response header extra ≡ ok (decode_lock header extra)
unfolding decode_response
decode_accepts header extra m v (inl e) = rw (m, v, e)
decode_accepts header extra m v (inr e) = rw (m, v, e)

module _ (r : LockCommandResult) (tail : List ℕ) (z : ReplySizes r) where
  abbrev h : List ℕ
  h = lock_reply r tail

  abbrev l : List ℕ
  l = to_le_bytes 2 r.l_count

  abbrev n : List ℕ
  n = to_le_bytes 2 r.count

  abbrev upto_request : List ℕ
  upto_request = magic ∷ version ∷ r.command_type ∷ r.request_id.bytes

  abbrev upto_db_id : List ℕ
  upto_db_id = upto_request ++ (r.result ∷ r.flag ∷ r.db_id ∷ [])

  abbrev upto_lock_id : List ℕ
  upto_lock_id = upto_db_id ++ r.lock_id.bytes

  abbrev upto_key : List ℕ
  upto_key = upto_lock_id ++ r.lock_key.bytes

  abbrev upto_l : List ℕ
  upto_l = upto_key ++ l

  abbrev upto_n : List ℕ
  upto_n = upto_l ++ n

  abbrev after_n : List ℕ
  after_n = r.lr_count ∷ r.r_count ∷ tail

  abbrev after_l : List ℕ
  after_l = n ++ after_n

  abbrev after_key : List ℕ
  after_key = l ++ after_l

  abbrev after_lock_id : List ℕ
  after_lock_id = r.lock_key.bytes ++ after_key

  abbrev after_db_id : List ℕ
  after_db_id = r.lock_id.bytes ++ after_lock_id

  sizes :
      (length upto_request ≡ 19)
      × (length upto_db_id ≡ 22)
      × (length upto_lock_id ≡ 38)
      × (length upto_key ≡ 54)
      × (length upto_l ≡ 56)
      × (length upto_n ≡ 58)
  sizes = omega (
    arith,
    z.request_id,
    z.lock_id,
    z.lock_key,
    length-append upto_request (r.result ∷ r.flag ∷ r.db_id ∷ []),
    length-append upto_db_id r.lock_id.bytes,
    length-append upto_lock_id r.lock_key.bytes,
    length-append upto_key l,
    length-append upto_l n,
    length-to_le_bytes 2 r.l_count,
    length-to_le_bytes 2 r.count,
  )

  f_request : slice h 3 19 ≡ r.request_id.bytes
  f_request =
      slice-field {header = h} (magic ∷ version ∷ r.command_type ∷ []) r.request_id.bytes _ 3 19
        refl refl (omega (arith, z.request_id))

  f_result : at h 19 ≡ r.result
  f_result = at-field {header = h} upto_request r.result _ 19 refl sizes.0

  f_flag : at h 20 ≡ r.flag
  f_flag =
      at-field {header = h} (upto_request ++ (r.result ∷ [])) r.flag (r.db_id ∷ after_db_id) 20
        (simp append_assoc) (omega (arith, sizes.0, length-append upto_request (r.result ∷ [])))

  f_db_id : at h 21 ≡ r.db_id
  f_db_id =
      at-field {header = h} (upto_request ++ (r.result ∷ r.flag ∷ [])) r.db_id after_db_id 21
        (simp append_assoc)
        (omega (arith, sizes.0, length-append upto_request (r.result ∷ r.flag ∷ [])))

  f_lock_id : slice h 22 38 ≡ r.lock_id.bytes
  f_lock_id =
      slice-field {header = h} upto_db_id r.lock_id.bytes after_lock_id 22 38 (simp append_assoc)
        sizes.1 (omega (arith, z.lock_id))

  f_lock_key : slice h 38 54 ≡ r.lock_key.bytes
  f_lock_key =
      slice-field {header = h} upto_lock_id r.lock_key.bytes after_key 38 54 (simp append_assoc)
        sizes.2 (omega (arith, z.lock_key))

  f_l_count : from_le_bytes (slice h 54 56) ≡ r.l_count
  f_l_count =
      ap from_le_bytes (
        slice-field {header = h} upto_key l after_l 54 56 (simp append_assoc) sizes.3
          (omega (arith, length-to_le_bytes 2 r.l_count)))
      ∙ from-to_le_bytes 2 r.l_count z.l_count

  f_count : from_le_bytes (slice h 56 58) ≡ r.count
  f_count =
      ap from_le_bytes (
        slice-field {header = h} upto_l n after_n 56 58 (simp append_assoc) sizes.4
          (omega (arith, length-to_le_bytes 2 r.count)))
      ∙ from-to_le_bytes 2 r.count z.count

  f_lr_count : at h 58 ≡ r.lr_count
  f_lr_count =
      at-field {header = h} upto_n r.lr_count (r.r_count ∷ tail) 58 (simp append_assoc) sizes.5

  f_r_count : at h 59 ≡ r.r_count
  f_r_count =
      at-field {header = h} (upto_n ++ (r.lr_count ∷ [])) r.r_count tail 59 (simp append_assoc)
        (omega (arith, sizes.5, length-append upto_n (r.lr_count ∷ [])))

  decode_lock_lem :
      (extra : Option (List ℕ))
      → decode_lock h extra ≡ lock (record r { contents = Option.map new_result_data extra })
  unfolding decode_lock
  decode_lock_lem extra = rw (
    f_request, f_result, f_flag, f_db_id, f_lock_id, f_lock_key, f_l_count, f_count, f_lr_count,
    f_r_count,
  )

  -- A lock or unlock reply with fields in range decodes to its fields, with whatever data was read
  -- behind it, and whatever the frame holds after the fields.
  pub decode_response-lock_reply :
      (extra : Option (List ℕ))
      → (r.command_type ≡ command_type_lock) ⊎ (r.command_type ≡ command_type_unlock)
      → decode_response (lock_reply r tail) extra
        ≡ ok (lock (record r { contents = Option.map new_result_data extra }))
  decode_response-lock_reply extra kind =
      decode_accepts h extra refl refl kind ∙ ap ok (decode_lock_lem extra)

-- What a successful decoding says of the header: it has the magic and the version, one of the four
-- command types, and the reply carries its request id and its result code.
pub record Accepted (header : List ℕ) (reply : CommandResult) : Type 0 where
  pub magic_byte : at header 0 ≡ magic
  pub version_byte : at header 1 ≡ version
  pub id : (request_id reply).bytes ≡ slice header 3 19
  pub code : result_code reply ≡ at header 19

-- A header that decodes has the magic and the version, and the reply has the request id of its
-- bytes 3 to 18 and the result code of its byte 19.
pub decode_response-Accepted :
    (header : List ℕ) (extra : Option (List ℕ)) (reply : CommandResult)
    → decode_response header extra ≡ ok reply
    → Accepted header reply
unfolding decode_response request_id result_code
decode_response-Accepted header extra reply e = ground arith

-- A header is refused only because its magic, its version or its command type is unknown, and the
-- first of the three that is decides the error.
decode_response_refused :
    (header : List ℕ) (extra : Option (List ℕ)) (e : SlockError)
    → decode_response header extra ≡ err e
    → ((at header 0 ≢ magic) × (e ≡ protocol (unknown_magic (at header 0))))
      ⊎ ((at header 0 ≡ magic)
          × (at header 1 ≢ version)
          × (e ≡ protocol (unknown_version (at header 1))))
      ⊎ ((at header 0 ≡ magic)
          × (at header 1 ≡ version)
          × (at header 2 ≢ command_type_init)
          × (at header 2 ≢ command_type_ping)
          × (at header 2 ≢ command_type_lock)
          × (at header 2 ≢ command_type_unlock)
          × (e ≡ protocol (unknown_command_type (at header 2))))
unfolding decode_response
decode_response_refused header extra e h = ground arith
