-- ===== src/Tests/Wire.antt =====
-- Keys, times, identifiers, requests and replies at concrete values.
use ruslock.Prelude.{
  ℕ, ◌≡◌, ◌≢◌, inl, refl, arith, List, [], ◌∷◌, none, some, bit_and, bit_or, replicate,
}
use mathlib.Core.Option
use ruslock.Key.{IsArray16, new_key, key_as_bytes}
use ruslock.Key.Normal.{new_key_stable}
use ruslock.Time.{PackedTime, value, flags, merge_flags}
use ruslock.Time.Fields.{merge_flags_fields}
use ruslock.Error.{ok, err, protocol, unknown_version}
use ruslock.Constants.{lock_flag_contains_data}
use ruslock.Protocol.Id.{new_id}
use ruslock.Protocol.Id.Fresh.{new_id_differ}
use ruslock.Protocol.Command.{LockCommand, lock_header}
use ruslock.Protocol.Command.Offsets.{LockFields, lock_header_fields}
use ruslock.Protocol.Reply.{LockCommandResult, lock}
use ruslock.Protocol.Codec.{decode_response, new_result_data}
use ruslock.Protocol.Codec.Responses.{
  lock_reply, decode_response-lock_reply, Accepted, decode_response-Accepted,
}
use ruslock.Data.LockData.{block, bytes}
use ruslock.Primitive.Lock.{data_flag}
use ruslock.Tests.Script.{scripted, id_of, key_of, reply_of}

abbrev a_command : LockCommand
a_command = record {
  command_type = 1;
  flag = 0x20;
  db_id = 3;
  request_id = id_of 1;
  lock_key = key_of 2;
  lock_id = id_of 4;
  timeout = record { bits = 0x20_000a };
  expired = record { bits = 300 };
  count = 513;
  r_count = 6;
  contents = some (block 0 0 0 (bytes (104 ∷ 105 ∷ [])));
}

lock_header_fields_example : LockFields a_command (lock_header a_command)
lock_header_fields_example =
    lock_header_fields a_command (record { request_id = refl; lock_id = refl; lock_key = refl })
      (record { timeout = omega arith; expired = omega arith; count = omega arith })

a_command-flag : a_command.flag ≡ data_flag lock_flag_contains_data 0 a_command.contents
unfolding data_flag
a_command-flag = refl

abbrev a_reply : LockCommandResult
a_reply = reply_of 5 (id_of 1)

decode_response-lock_reply_example :
    decode_response (lock_reply a_reply (replicate 4 0)) (some (0 ∷ 0 ∷ []))
    ≡ ok (lock (record a_reply { contents = Option.map new_result_data (some (0 ∷ 0 ∷ [])) }))
decode_response-lock_reply_example =
    decode_response-lock_reply a_reply (replicate 4 0)
      (record {
        request_id = refl;
        lock_id = refl;
        lock_key = refl;
        l_count = omega arith;
        count = omega arith;
      })
      (some (0 ∷ 0 ∷ [])) (inl refl)

decode_response-Accepted_example :
    Accepted (lock_reply a_reply (replicate 4 0)) (lock (record a_reply { contents = none }))
decode_response-Accepted_example =
    decode_response-Accepted (lock_reply a_reply (replicate 4 0)) none
      (lock (record a_reply { contents = none }))
      (decode_response-lock_reply a_reply (replicate 4 0)
        (record {
          request_id = refl;
          lock_id = refl;
          lock_key = refl;
          l_count = omega arith;
          count = omega arith;
        })
        none (inl refl))

abbrev other_version : List ℕ
other_version = 86 ∷ 2 ∷ replicate 62 0

refused_version : decode_response other_version none ≡ err (protocol (unknown_version 2))
unfolding decode_response
refused_version = refl

abbrev long_name : List ℕ
long_name = replicate 17 65

new_key_stable_example :
    IsArray16 (new_key scripted.md5 long_name).bytes
    × (new_key scripted.md5 (key_as_bytes (new_key scripted.md5 long_name))
        ≡ new_key scripted.md5 long_name)
new_key_stable_example =
    new_key_stable scripted.md5 (λ name all. (refl, omega arith)) long_name (omega arith)

abbrev a_time : PackedTime
a_time = record { bits = 0x20_000a }

merge_flags_fields_example :
    (value (merge_flags a_time 0x100) ≡ value a_time)
    × (flags (merge_flags a_time 0x100) ≡ bit_or (flags a_time) 0x100)
    × (bit_and (flags (merge_flags a_time 0x100)) 0x100 ≡ 0x100)
    × (merge_flags (merge_flags a_time 0x100) 0x100 ≡ merge_flags a_time 0x100)
merge_flags_fields_example = merge_flags_fields a_time 0x100 (omega arith)

new_id_differ_example : (new_id 1700000000000 42 0).0 ≢ (new_id 1700000000000 42 1).0
new_id_differ_example = new_id_differ 1700000000000 1700000000000 42 42 0 1 (λ h. omega arith)
