-- ===== src/Connection/Greeting.antt =====
-- blocking/connection.rs: which answers `open` accepts, and the time limit of `send_command`.
use ruslock.Prelude.{
  ℕ, ◌+◌, ◌*◌, ◌%◌, ◌^◌, ◌≤◌, ◌≡◌, refl, ap, ◌∙◌, arith, ◌↔◌, List, from_le_bytes,
}
use ruslock.Constants.{magic, version, command_type_init}
use ruslock.Error.{ok, bind-eq-ok}
use ruslock.Options.{ClientOptions}
use ruslock.Time.{value}
use ruslock.Time.Fields.{value_low}
use ruslock.Protocol.Command.{
  LockCommand, EncodedCommand, encode_command, lock_header, lock_extra, lock,
}
use ruslock.Protocol.Command.Layout.{LockSizes}
use ruslock.Protocol.Command.Offsets.{LockRanges, lock_header_fields}
use ruslock.Replset.Send.{new_pending}
use ruslock.Protocol.Codec.{at, slice, decode_response}
use ruslock.Protocol.Reply.{InitCommandResult, result_code}
use ruslock.Connection.Handshake.{greeting, expect_init, receive_timeout}

-- `open` accepts an answer exactly where it is an init reply of the known magic and version with the
-- result code 0, and then takes the request id and the init type of the header.
pub greeting-eq-ok :
    (header : List ℕ) (r : InitCommandResult)
    → (greeting header ≡ ok r) ↔ (
        (at header 0 ≡ magic)
        × (at header 1 ≡ version)
        × (at header 2 ≡ command_type_init)
        × (at header 19 ≡ 0)
        × (r ≡ record {
          request_id = record { bytes = slice header 3 19 };
          result = at header 19;
          init_type = at header 20;
        }))
unfolding greeting expect_init decode_response result_code
greeting-eq-ok header r = (λ h. ground arith, λ h. ground arith)

encoded_lock :
    (c : LockCommand) (e : EncodedCommand)
    → encode_command (lock c) ≡ ok e
    → (e.header ≡ lock_header c) × (e.timeout ≡ value c.timeout * 1000)
unfolding encode_command
encoded_lock c e h = let (extra, found, made) = bind-eq-ok (lock_extra c) _ h in grind arith

-- The limit that `send_command` of a connection gives to `recv_timeout` for a lock or unlock command
-- with 16-byte identifiers and numbers in range: the grace of the options, and for each second of
-- the wait that the server reads in the header (bytes 53 to 56, low half) a thousand milliseconds,
-- so at most 65535 seconds more. The deadline of the same command in a replica set is that limit
-- behind the time of its making.
pub receive_timeout-header :
    (options : ClientOptions) (c : LockCommand) (e : EncodedCommand)
    → LockSizes c
    → LockRanges c
    → encode_command (lock c) ≡ ok e
    → (receive_timeout options e
        ≡ options.command_timeout_grace + from_le_bytes (slice e.header 53 57) % 2 ^ 16 * 1000)
      × (receive_timeout options e ≤ options.command_timeout_grace + 65535000)
      × ((now : ℕ)
          → (new_pending e (lock c) options.command_timeout_grace now).deadline
            ≡ now + receive_timeout options e * 1000000)
unfolding receive_timeout new_pending
receive_timeout-header options c e sizes fits h =
    let (header, timeout) = encoded_lock c e h in
    let read : from_le_bytes (slice e.header 53 57) ≡ c.timeout.bits =
      ap (λ bs. from_le_bytes (slice bs 53 57)) header
      ∙ (lock_header_fields c sizes fits).timeout in
    (
      omega (arith, timeout, read, value_low c.timeout),
      omega (arith, timeout, value_low c.timeout),
      λ now. refl,
    )
