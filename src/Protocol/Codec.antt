-- ===== src/Protocol/Codec.antt =====
-- protocol/codec.rs: decoding the 64-byte response headers. A header is a list of 64 bytes, as its
-- type `[u8; 64]` says, so an index below 64 is in range.
pub mod Fields
pub mod Responses
use ruslock.Prelude.{ℕ, ◌-◌, List, Option, none, Bool, not, ◌&&◌, ◌||◌, ◌==◌}
use ruslock.Prelude.{if◌then◌else◌, bit_and, take, drop, get_or, from_le_bytes}
use mathlib.Core.Option
use ruslock.Constants.{
  magic, version, command_type_init, command_type_ping, command_type_lock, command_type_unlock,
  lock_flag_contains_data,
}
use ruslock.Key.{Key16, key_from_bytes}
use ruslock.Error.{
  Result, ok, err, ◌>>◌, protocol, unknown_magic, unknown_version, unknown_command_type,
}
use ruslock.Protocol.Id.{Id16, id_from_bytes}
use ruslock.Protocol.Reply.{CommandResult, init, ping, lock}
use ruslock.Data.Raw.{LockResultData}

abbrev pub header_len : ℕ
header_len = 64

-- `header[i]`.
abbrev pub at : List ℕ → ℕ → ℕ
at header i = get_or header i 0

-- `header[from..to]`.
abbrev pub slice : List ℕ → ℕ → ℕ → List ℕ
slice header from to = take (to - from) (drop from header)

unfoldable pub validate_header : List ℕ → Result (Unit {0})
validate_header header =
    if not (at header 0 == magic)
    then err (protocol (unknown_magic (at header 0)))
    else if not (at header 1 == version)
    then err (protocol (unknown_version (at header 1)))
    else ok tt

unfoldable pub read_id : List ℕ → Id16
unfolding id_from_bytes
read_id bytes = id_from_bytes bytes

unfoldable pub read_key : List ℕ → Key16
unfolding key_from_bytes
read_key bytes = key_from_bytes bytes

-- `LockResultData::new`.
unfoldable pub new_result_data : List ℕ → LockResultData
new_result_data raw = record { raw = raw }

-- The arm of `decode_response` for lock and unlock replies.
unfoldable pub decode_lock : List ℕ → Option (List ℕ) → CommandResult
unfolding read_id read_key from_le_bytes new_result_data
decode_lock header extra = lock (record {
  command_type = at header 2;
  request_id = read_id (slice header 3 19);
  result = at header 19;
  flag = at header 20;
  db_id = at header 21;
  lock_id = read_id (slice header 22 38);
  lock_key = read_key (slice header 38 54);
  l_count = from_le_bytes (slice header 54 56);
  count = from_le_bytes (slice header 56 58);
  lr_count = at header 58;
  r_count = at header 59;
  contents = Option.map new_result_data extra;
})

-- The `match` of `decode_response`.
unfoldable pub decode_body : List ℕ → Option (List ℕ) → Result CommandResult
unfolding decode_lock read_id
decode_body header extra =
    if at header 2 == command_type_init
    then ok (
        init (record {
          request_id = read_id (slice header 3 19);
          result = at header 19;
          init_type = at header 20;
        }))
    else if at header 2 == command_type_ping
    then ok (ping (record { request_id = read_id (slice header 3 19); result = at header 19 }))
    else if at header 2 == command_type_lock || at header 2 == command_type_unlock
    then ok (decode_lock header extra)
    else err (protocol (unknown_command_type (at header 2)))

unfoldable pub decode_response : List ℕ → Option (List ℕ) → Result CommandResult
unfolding validate_header decode_body
decode_response header extra = do validate_header header; decode_body header extra

unfoldable pub decode_response_header : List ℕ → Result CommandResult
unfolding decode_response
decode_response_header header = decode_response header none

unfoldable pub response_has_extra_data : List ℕ → Bool
response_has_extra_data header =
    (at header 2 == command_type_lock || at header 2 == command_type_unlock)
    && not (bit_and (at header 20) lock_flag_contains_data == 0)
