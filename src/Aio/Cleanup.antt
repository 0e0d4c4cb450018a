-- ===== src/Aio/Cleanup.antt =====
-- aio/connection.rs: what a `send_command` leaves pending that returns or is dropped.
use ruslock.Prelude.{ℕ, ◌≡◌, refl, Option, none, some, Bool, true, false}
use ruslock.Error.{IoError, Result, ok, err, io, not_connected, command_timeout}
use ruslock.Protocol.Id.{Id16}
use ruslock.Protocol.Command.{Command, EncodedCommand, encode_command}
use ruslock.Protocol.Reply.{CommandResult}
use ruslock.Connection.State.{find}
use ruslock.Connection.Owners.{find-remove}
use ruslock.Aio.Sending.{
  Shared, PendingCleanup, new_cleanup, disarm, removed, drop_cleanup, Received, answered,
  sender_gone, late, Sending, finished, locks_pending, locks_writer, writes, receives, take_back,
  after_receive, after_write, with_writer, registered, send_encoding, send_task,
}

-- Dropped where the mutex of the table is free, the cleanup takes the entry of the id; where it is
-- not, it leaves the state as it is.
abbrev pub Guards : Id16 → Option PendingCleanup → Type 0
Guards id none = ⊥
Guards id (some c) =
    ((s : Shared) → find id (drop_cleanup true c s).pending ≡ none)
    × ((s : Shared) → drop_cleanup false c s ≡ s)

-- Its drop does nothing.
abbrev pub Rests : Option PendingCleanup → Type 0
Rests none = Unit {0}
Rests (some c) = (free : Bool) (s : Shared) → drop_cleanup free c s ≡ s

-- From here on the call is guarded wherever it waits, and not where it has returned.
pub IsGuarded : Id16 → Sending → Type 0
IsGuarded id (finished r c s) = Rests c
IsGuarded id (locks_pending c s k) = Guards id c × ((s' : Shared) → IsGuarded id (k s'))
IsGuarded id (locks_writer c s k) = Guards id c × ((s' : Shared) → IsGuarded id (k s'))
IsGuarded id (writes c s k) =
    Guards id c × ((e : Option IoError) (s' : Shared) → IsGuarded id (k e s'))
IsGuarded id (receives c s k) = Guards id c × ((r : Received) (s' : Shared) → IsGuarded id (k r s'))

new_cleanup-Guards : (id : Id16) → Guards id (some (new_cleanup id))
unfolding new_cleanup drop_cleanup removed
new_cleanup-Guards id = (λ s. find-remove id s.pending, λ s. refl)

disarm-Rests : (c : PendingCleanup) → Rests (some (disarm c))
unfolding disarm drop_cleanup
disarm-Rests c free s = refl

take_back-IsGuarded :
    (id : Id16) (r : Result CommandResult) (s : Shared)
    → IsGuarded id (take_back r (new_cleanup id) s)
unfolding take_back IsGuarded
take_back-IsGuarded id r s = (new_cleanup-Guards id, λ s'. disarm-Rests (new_cleanup id))

after_receive-IsGuarded :
    (id : Id16) (r : Received) (s : Shared) → IsGuarded id (after_receive (new_cleanup id) r s)
unfolding after_receive IsGuarded
after_receive-IsGuarded id (answered r) s = disarm-Rests (new_cleanup id)
after_receive-IsGuarded id sender_gone s = disarm-Rests (new_cleanup id)
after_receive-IsGuarded id late s = take_back-IsGuarded id (err command_timeout) s

after_write-IsGuarded :
    (id : Id16) (e : Option IoError) (s : Shared) → IsGuarded id (after_write (new_cleanup id) e s)
unfolding after_write IsGuarded
after_write-IsGuarded id (some e) s = take_back-IsGuarded id (err (io e)) s
after_write-IsGuarded id none s = (new_cleanup-Guards id, λ r s'. after_receive-IsGuarded id r s')

with_writer-IsGuarded :
    (id : Id16) (w : Option ℕ) (s : Shared) → IsGuarded id (with_writer (new_cleanup id) w s)
unfolding with_writer IsGuarded
with_writer-IsGuarded id none s = take_back-IsGuarded id (err not_connected) s
with_writer-IsGuarded id (some w) s = (new_cleanup-Guards id, λ e s'. after_write-IsGuarded id e s')

registered-IsGuarded : (id : Id16) (sender : ℕ) (s : Shared) → IsGuarded id (registered id sender s)
unfolding registered IsGuarded
registered-IsGuarded id sender s =
    (new_cleanup-Guards id, λ s'. with_writer-IsGuarded id s'.writer s')

-- A `send_command` of a connection that is not closed, whose command can be encoded, first waits for
-- the table of pending requests without an entry in it. From its insertion on, wherever it waits and
-- whatever other tasks do: dropped while the mutex of the table is free, it leaves no entry of its
-- request id; dropped while the mutex is taken, it leaves the table as it is, its entry included.
-- Once it has returned, the drop of its cleanup changes nothing.
pub send_task-IsGuarded :
    (command : Command) (sender : ℕ) (s : Shared) (e : EncodedCommand)
    → encode_command command ≡ ok e
    → s.closed ≡ false
    → (send_task command sender s ≡ locks_pending none s (λ s'. registered e.request_id sender s'))
      × ((s' : Shared) → IsGuarded e.request_id (registered e.request_id sender s'))
unfolding send_task send_encoding
send_task-IsGuarded command sender s e encoded running =
    (rw (running, encoded) refl, λ s'. registered-IsGuarded e.request_id sender s')
