-- ===== src/Protocol/Command.antt =====
-- protocol/command.rs: the requests and their 64-byte headers. A Duration is counted in
-- milliseconds.
pub mod Layout
pub mod Offsets
use ruslock.Prelude.{ℕ, ◌*◌, List, [], ◌∷◌, ◌++◌, Option, none, some, Bool, true, not, ◌||◌}
use ruslock.Prelude.{◌==◌, if◌then◌else◌, bit_and, replicate, write_at, to_le_bytes}
use ruslock.Constants.{
  magic, version, command_type_init, command_type_ping, lock_flag_contains_data,
  unlock_flag_contains_data,
}
use ruslock.Key.{Key16, key_as_bytes}
use ruslock.Time.{PackedTime, value}
use ruslock.Error.{Result, ok, err, ◌>>=◌, lock_data, data_is_missing}
use ruslock.Protocol.Id.{Id16, id_as_bytes}
use ruslock.Data.LockData.{LockData, encode}

pub record InitCommand : Type 0 where
  pub request_id : Id16
  pub client_id : Id16

pub record PingCommand : Type 0 where
  pub request_id : Id16

pub record LockCommand : Type 0 where
  pub command_type : ℕ
  pub flag : ℕ
  pub db_id : ℕ
  pub request_id : Id16
  pub lock_key : Key16
  pub lock_id : Id16
  pub timeout : PackedTime
  pub expired : PackedTime
  pub count : ℕ
  pub r_count : ℕ
  pub contents : Option LockData

-- `LockCommand::has_extra_data`.
unfoldable pub has_extra_data : LockCommand → Bool
has_extra_data c =
    not (bit_and c.flag lock_flag_contains_data == 0)
    || not (bit_and c.flag unlock_flag_contains_data == 0)

pub data Command : Type 0 where
  init : InitCommand → Command
  ping : PingCommand → Command
  lock : LockCommand → Command

unfoldable pub request_id : Command → Id16
request_id (init c) = c.request_id
request_id (ping c) = c.request_id
request_id (lock c) = c.request_id

unfoldable pub command_type : Command → ℕ
command_type (init c) = command_type_init
command_type (ping c) = command_type_ping
command_type (lock c) = c.command_type

pub record EncodedCommand : Type 0 where
  pub request_id : Id16
  pub command_type : ℕ
  pub header : List ℕ
  pub extra : Option (List ℕ)
  pub timeout : ℕ
  pub expects_response : Bool

-- The three writes that every header starts with: `header[0]`, `header[1]` and `header[2]`.
abbrev prefix_header : ℕ → List ℕ
prefix_header command_type =
    write_at (write_at (write_at (replicate 64 0) 0 (magic ∷ [])) 1 (version ∷ [])) 2
      (command_type ∷ [])

-- The header of `Command::Init`.
unfoldable pub init_header : InitCommand → List ℕ
unfolding id_as_bytes
init_header c =
    write_at (write_at (prefix_header command_type_init) 3 (id_as_bytes c.request_id)) 19
      (id_as_bytes c.client_id)

-- The header of `Command::Ping`.
unfoldable pub ping_header : PingCommand → List ℕ
unfolding id_as_bytes
ping_header c = write_at (prefix_header command_type_ping) 3 (id_as_bytes c.request_id)

-- The header of `Command::Lock`.
unfoldable pub lock_header : LockCommand → List ℕ
unfolding id_as_bytes key_as_bytes to_le_bytes
lock_header c =
    let h2 = prefix_header c.command_type in
    let h3 = write_at h2 3 (id_as_bytes c.request_id) in
    let h19 = write_at h3 19 (c.flag ∷ []) in
    let h20 = write_at h19 20 (c.db_id ∷ []) in
    let h21 = write_at h20 21 (id_as_bytes c.lock_id) in
    let h37 = write_at h21 37 (key_as_bytes c.lock_key) in
    let h53 = write_at h37 53 (to_le_bytes 4 c.timeout.bits) in
    let h57 = write_at h53 57 (to_le_bytes 4 c.expired.bits) in
    let h61 = write_at h57 61 (to_le_bytes 2 c.count) in write_at h61 63 (c.r_count ∷ [])

-- `command.data.as_ref().ok_or_else(..)?.encode()?`.
unfoldable pub encode_contents : Option LockData → Result (List ℕ)
encode_contents none = err (lock_data data_is_missing)
encode_contents (some d) = encode d

-- The extra data of `Command::Lock`.
unfoldable pub lock_extra : LockCommand → Result (Option (List ℕ))
unfolding has_extra_data encode_contents
lock_extra c =
    if has_extra_data c then (do extra ← encode_contents c.contents; ok (some extra)) else ok none

-- `Command::encode`.
unfoldable pub encode_command : Command → Result EncodedCommand
unfolding init_header ping_header lock_header lock_extra value
encode_command (init c) = ok (record {
  request_id = c.request_id;
  command_type = command_type_init;
  header = init_header c;
  extra = none;
  timeout = 0;
  expects_response = true;
})
encode_command (ping c) = ok (record {
  request_id = c.request_id;
  command_type = command_type_ping;
  header = ping_header c;
  extra = none;
  timeout = 0;
  expects_response = true;
})
encode_command (lock c) = do
  extra ← lock_extra c
  ok (record {
    request_id = c.request_id;
    command_type = c.command_type;
    header = lock_header c;
    extra = extra;
    timeout = value c.timeout * 1000;
    expects_response = true;
  })

-- `EncodedCommand::frame`: the bytes on the wire.
unfoldable pub frame : EncodedCommand → List ℕ
frame e = elim e.extra [ none ↦ e.header | some extra ↦ e.header ++ extra ]
