-- ===== src/Connection/Threads.antt =====
-- blocking/connection.rs: `open`, `close` and `send_command`, one access to shared state at a time,
-- and the reader threads.
use ruslock.Prelude.{
  ℕ, ◌+◌, List, [], ◌∷◌, ◌++◌, Option, none, some, Bool, true, false, if◌then◌else◌,
}
use ruslock.Error.{
  IoError, SlockError, Result, ok, err, panic, out_of_fuel, io, not_connected, client_closed,
  command_timeout,
}
use ruslock.Protocol.Id.{Id16, id_from_bytes}
use ruslock.Protocol.Command.{Command, EncodedCommand, encode_command, frame}
use ruslock.Protocol.Codec.{decode_response, response_has_extra_data, slice}
use ruslock.Protocol.Reply.{CommandResult, InitCommandResult, request_id}
use ruslock.Connection.State.{
  Pc, idle, encoded, registered, write_failed, waiting, timed_out, returned, refused, opening,
  connecting, greeted, attaching, spawning, opened, closing, waking, shut, ReaderPc, absent,
  reading, stopped, failing, Connection, update, remove, insert, find, has_sender, drain, set_pc,
  set_reader,
}
use ruslock.Connection.Handshake.{greeting}

-- What the network does with a thread that reaches for it. The id is the one that `Id16::new` would
-- make for a client that has none yet.
pub data Net : Type 0 where
  written : Net  -- the frame was written
  broken : IoError → Net  -- it was not, or the stream could not be cloned
  unreachable : SlockError → Net  -- no connection, or no options set on it
  silent : Id16 → SlockError → Net  -- connected, but the init command failed or got no answer
  greets : Id16 → List ℕ → Net  -- the header that answers the init command

-- The first lines of `send_command`.
unfoldable pub start_encoded : Result EncodedCommand → Pc
start_encoded (ok e) = encoded e
start_encoded (err e) = refused (err e)
start_encoded panic = refused panic
start_encoded out_of_fuel = refused out_of_fuel

unfoldable pub start_send : ℕ → Command → Connection → Connection
unfolding set_pc start_encoded encode_command
start_send i c s =
    set_pc i (if s.closed then refused (err client_closed) else start_encoded (encode_command c)) s

-- `writer` is some: the frame is written to its stream.
unfoldable pub write_frame : EncodedCommand → ℕ → ℕ → Net → Connection → Connection
unfolding set_pc frame
write_frame e i k written s =
    set_pc i (waiting e) (record s { written = s.written ++ ((k, frame e) ∷ []) })
write_frame e i k (broken x) s = set_pc i (write_failed e x) s
write_frame e i k (unreachable x) s = s
write_frame e i k (silent id x) s = s
write_frame e i k (greets id header) s = s

-- A return of `send_command` behind `pending.remove(&encoded.request_id)`.
unfoldable pub give_up : EncodedCommand → SlockError → ℕ → Connection → Connection
unfolding set_pc remove
give_up e x i s =
    set_pc i (returned e (err x)) (record s { pending = remove e.request_id s.pending })

-- The block under the lock on `writer`.
unfoldable pub to_writer : EncodedCommand → ℕ → Net → Option ℕ → Connection → Connection
unfolding give_up write_frame
to_writer e i net none s = give_up e not_connected i s
to_writer e i net (some k) s = write_frame e i k net s

-- `rx.recv_timeout(timeout)`, before the timeout: without a message and without a sender it fails.
unfoldable pub receive :
    EncodedCommand → ℕ → Option (Result CommandResult) → Connection → Connection
unfolding set_pc has_sender
receive e i (some r) s = set_pc i (returned e r) s
receive e i none s =
    if has_sender i s.pending then s else set_pc i (returned e (err client_closed)) s

-- The end of `open`'s connecting, by the answer.
unfoldable pub greeted_by : Result InitCommandResult → Pc
greeted_by (ok r) = greeted r
greeted_by (err e) = opened (err e)
greeted_by panic = opened panic
greeted_by out_of_fuel = opened out_of_fuel

-- `*guard.get_or_insert_with(Id16::new)`.
abbrev pub get_or_insert : Option Id16 → Id16 → Option Id16
get_or_insert none fresh = some fresh
get_or_insert (some id) fresh = some id

unfoldable pub connect : ℕ → Net → Connection → Connection
unfolding set_pc greeted_by greeting
connect i written s = s
connect i (broken x) s = s
connect i (unreachable x) s = set_pc i (opened (err x)) s
connect i (silent fresh x) s =
    set_pc i (opened (err x)) (record s { client_id = get_or_insert s.client_id fresh })
connect i (greets fresh header) s =
    set_pc i (greeted_by (greeting header))
      (record s { client_id = get_or_insert s.client_id fresh })

-- The next access of a thread to shared state.
unfoldable pub act : Pc → ℕ → Net → Connection → Connection
unfolding set_pc insert to_writer give_up receive connect drain set_reader
act idle i net s = s
act (encoded e) i net s =
    set_pc i (registered e)
      (record s { pending = insert e.request_id i s.pending; mailbox = update s.mailbox i none })
act (registered e) i net s = to_writer e i net s.writer s
act (write_failed e x) i net s = give_up e (io x) i s
act (waiting e) i net s = receive e i (s.mailbox i) s
act (timed_out e) i net s = give_up e command_timeout i s
act (returned e r) i net s = s
act (refused r) i net s = s
act opening i net s = set_pc i connecting (record s { closed = false })
act connecting i net s = connect i net s
act (greeted r) i net s = set_pc i attaching (record s { init_type = r.init_type })
act attaching i (broken x) s = set_pc i (opened (err (io x))) s
act attaching i net s =
    set_pc i (spawning s.streams) (record s { writer = some s.streams; streams = s.streams + 1 })
act (spawning k) i net s = set_pc i (opened (ok tt)) (set_reader k reading s)
act (opened r) i net s = s
act closing i net s = set_pc i waking (record s { writer = none })
act waking i net s = set_pc i shut (drain (err client_closed) s)
act shut i net s = s

-- The timeout of `recv_timeout` passes. A message that is there is received all the same.
unfoldable pub expire : Pc → ℕ → Option (Result CommandResult) → Connection → Connection
unfolding set_pc
expire (waiting e) i none s = set_pc i (timed_out e) s
expire (waiting e) i (some r) s = set_pc i (returned e r) s
expire p i m s = s

-- Whether a thread is between two calls.
unfoldable pub is_between : Pc → Bool
is_between idle = true
is_between (returned e r) = true
is_between (refused r) = true
is_between (opened r) = true
is_between shut = true
is_between p = false

abbrev pub open_by : Option ℕ → Pc
open_by none = opening
open_by (some k) = opened (ok tt)

-- `open` up to the look at `writer`.
unfoldable pub start_open : ℕ → Connection → Connection
unfolding set_pc
start_open i s = set_pc i (open_by s.writer) s

-- `close` up to the store to `closed`.
unfoldable pub start_close : ℕ → Connection → Connection
unfolding set_pc
start_close i s = set_pc i closing (record s { closed = true })

-- The lookup of `spawn_reader`'s loop: under the id of the decoded reply, or of the header.
unfoldable pub key_of : List ℕ → Result CommandResult → Id16
unfolding request_id id_from_bytes
key_of header (ok a) = request_id a
key_of header (err e) = id_from_bytes (slice header 3 19)
key_of header panic = id_from_bytes (slice header 3 19)
key_of header out_of_fuel = id_from_bytes (slice header 3 19)

-- `tx.send(decoded)`, to the thread whose sender was removed.
unfoldable pub send_to : Id16 → Result CommandResult → Option ℕ → Connection → Connection
unfolding remove
send_to id r none s = s
send_to id r (some i) s = record s {
  pending = remove id s.pending;
  mailbox = update s.mailbox i (some r);
}

-- `pending.remove(&request_id)` and `tx.send(decoded)`.
unfoldable pub deliver : Id16 → Result CommandResult → Connection → Connection
unfolding find send_to
deliver id r s = send_to id r (find id s.pending) s

-- What a reader's stream brings: a header, with the bytes of the extra data where the header asks
-- for it, or without them if that read fails; or no header.
pub data Incoming : Type 0 where
  response : List ℕ → Option (List ℕ) → Incoming
  ended : IoError → Incoming

-- The data of a response, or `none` where it could not be read.
unfoldable pub extra_read : List ℕ → Option (List ℕ) → Option (Option (List ℕ))
unfolding response_has_extra_data
extra_read header extra =
    if response_has_extra_data header
    then (elim extra [ none ↦ none | some data_ ↦ some (some data_) ])
    else some none

-- The round behind the header, by the data.
unfoldable pub read_behind : Option (Option (List ℕ)) → ℕ → List ℕ → Connection → Connection
unfolding set_reader drain decode_response key_of deliver
read_behind none k header s = set_reader k stopped (drain (err client_closed) s)
read_behind (some contents) k header s =
    let decoded = decode_response header contents in deliver (key_of header decoded) decoded s

-- One round of a reader's loop, up to the look at `closed` where the header could not be read.
unfoldable pub read_one : ReaderPc → ℕ → Incoming → Connection → Connection
unfolding set_reader extra_read read_behind
read_one reading k (response header extra) s = read_behind (extra_read header extra) k header s
read_one reading k (ended x) s = set_reader k (if s.closed then stopped else failing x) s
read_one absent k n s = s
read_one stopped k n s = s
read_one (failing x) k n s = s

-- A reader that found `closed` false behind a failed read: it drains `pending` and takes `writer`.
unfoldable pub fail_reader : ReaderPc → ℕ → Connection → Connection
unfolding set_reader drain
fail_reader (failing x) k s = set_reader k stopped (record (drain (err (io x)) s) { writer = none })
fail_reader absent k s = s
fail_reader reading k s = s
fail_reader stopped k s = s

-- What happens next, and to which thread or stream.
pub data Event : Type 0 where
  sends : ℕ → Command → Event
  opens closes : ℕ → Event
  acts : ℕ → Net → Event
  expires : ℕ → Event
  reads : ℕ → Incoming → Event
  fails : ℕ → Event

-- A call begins only on a thread that is in none.
abbrev if_between : ℕ → (Connection → Connection) → Connection → Connection
if_between i call s = if is_between (s.pc i) then call s else s

unfoldable pub step : Event → Connection → Connection
unfolding is_between start_send start_open start_close act expire read_one fail_reader
step (sends i c) s = if_between i (start_send i c) s
step (opens i) s = if_between i (start_open i) s
step (closes i) s = if_between i (start_close i) s
step (acts i net) s = act (s.pc i) i net s
step (expires i) s = expire (s.pc i) i (s.mailbox i) s
step (reads k n) s = read_one (s.reader k) k n s
step (fails k) s = fail_reader (s.reader k) k s

-- A history of the connection, in order.
unfoldable pub run : List Event → Connection → Connection
unfolding step
run [] s = s
run (e ∷ es) s = run es (step e s)
