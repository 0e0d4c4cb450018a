-- ===== src/Aio/Sending.antt =====
-- aio/connection.rs: `send_command` of the connection, and `PendingCleanup`.
use ruslock.Prelude.{ℕ, List, Option, none, some, Bool, true, false, ◌&&◌, if◌then◌else◌}
use ruslock.Error.{
  IoError, Result, ok, err, panic, out_of_fuel, io, not_connected, client_closed, command_timeout,
}
use ruslock.Protocol.Id.{Id16}
use ruslock.Protocol.Command.{Command, EncodedCommand, encode_command}
use ruslock.Protocol.Reply.{CommandResult}
use ruslock.Connection.State.{remove, insert}

-- The fields of `Connection` that `send_command` uses. A sender is a number, and so is a writer.
pub record Shared : Type 0 where
  pub closed : Bool
  pub writer : Option ℕ
  pub pending : List (Id16 × ℕ)

-- `PendingCleanup`; its table is in the state.
pub record PendingCleanup : Type 0 where
  pub request_id : Id16
  pub active : Bool

-- `PendingCleanup::new`.
unfoldable pub new_cleanup : Id16 → PendingCleanup
new_cleanup request_id = record { request_id = request_id; active = true }

-- `PendingCleanup::disarm`.
unfoldable pub disarm : PendingCleanup → PendingCleanup
disarm c = record c { active = false }

-- `self.pending.lock().await.remove(&id)`, behind the await.
unfoldable pub removed : Id16 → Shared → Shared
unfolding remove
removed id s = record s { pending = remove id s.pending }

-- `PendingCleanup::drop`, by whether the mutex of the table is free.
unfoldable pub drop_cleanup : Bool → PendingCleanup → Shared → Shared
unfolding removed
drop_cleanup free c s = if c.active && free then removed c.request_id s else s

-- What `tokio::time::timeout` makes of the receiver: an answer, no sender, or no time left.
pub data Received : Type 0 where
  answered : Result CommandResult → Received
  sender_gone late : Received

-- The future of `send_command`: it has returned, or it waits for a mutex, for the writer's bytes or for
-- the answer. Each holds the cleanup, if there is one yet, and while it waits other tasks may
-- change the state.
pub data Sending : Type 0 where
  finished : Result CommandResult → Option PendingCleanup → Shared → Sending
  locks_pending : Option PendingCleanup → Shared → (Shared → Sending) → Sending
  locks_writer : Option PendingCleanup → Shared → (Shared → Sending) → Sending
  writes : Option PendingCleanup → Shared → (Option IoError → Shared → Sending) → Sending
  receives : Option PendingCleanup → Shared → (Received → Shared → Sending) → Sending

-- `self.pending.lock().await.remove(&id); cleanup.disarm(); return r;`.
unfoldable pub take_back : Result CommandResult → PendingCleanup → Shared → Sending
unfolding removed disarm
take_back r c s =
    locks_pending (some c) s (λ s'. finished r (some (disarm c)) (removed c.request_id s'))

-- The `match` on the received.
unfoldable pub after_receive : PendingCleanup → Received → Shared → Sending
unfolding take_back disarm
after_receive c (answered r) s = finished r (some (disarm c)) s
after_receive c sender_gone s = finished (err client_closed) (some (disarm c)) s
after_receive c late s = take_back (err command_timeout) c s

-- What follows the write, by its error.
unfoldable pub after_write : PendingCleanup → Option IoError → Shared → Sending
unfolding take_back after_receive
after_write c (some e) s = take_back (err (io e)) c s
after_write c none s = receives (some c) s (λ r s'. after_receive c r s')

-- The block with the writer, by whether there is one.
unfoldable pub with_writer : PendingCleanup → Option ℕ → Shared → Sending
unfolding take_back after_write
with_writer c none s = take_back (err not_connected) c s
with_writer c (some w) s = writes (some c) s (λ e s'. after_write c e s')

-- The insertion and what follows.
unfoldable pub registered : Id16 → ℕ → Shared → Sending
unfolding insert new_cleanup with_writer
registered id sender s =
    locks_writer (some (new_cleanup id)) (record s { pending = insert id sender s.pending })
      (λ s'. with_writer (new_cleanup id) s'.writer s')

-- `send_command` behind the look at `closed`, by what the encoding returned.
unfoldable pub send_encoding : Result EncodedCommand → ℕ → Shared → Sending
unfolding registered
send_encoding (ok e) sender s = locks_pending none s (λ s'. registered e.request_id sender s')
send_encoding (err x) sender s = finished (err x) none s
send_encoding panic sender s = finished panic none s
send_encoding out_of_fuel sender s = finished out_of_fuel none s

-- `Connection::send_command`, whose channel has the sender `sender`.
unfoldable pub send_task : Command → ℕ → Shared → Sending
unfolding send_encoding encode_command
send_task command sender s =
    if s.closed
    then finished (err client_closed) none s
    else send_encoding (encode_command command) sender s
