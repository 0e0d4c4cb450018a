-- ===== src/Tests/Connections.antt =====
-- A connection, with two threads that send and one that closes.
use ruslock.Prelude.{
  ℕ, ◌+◌, ◌*◌, ◌%◌, ◌^◌, ◌≤◌, ◌≡◌, arith, from_le_bytes, ◌↔◌, refl, List, [], ◌∷◌, ◌++◌, none, some,
  true, false, replicate,
}
use ruslock.Constants.{magic, version, command_type_init, command_type_lock}
use ruslock.Error.{IoError, ok, err, client_closed}
use ruslock.Options.{default_options}
use ruslock.Protocol.Command.{Command, LockCommand, EncodedCommand, encode_command}
use ruslock.Protocol.Codec.{at, slice, response_has_extra_data}
use ruslock.Protocol.Reply.{InitCommandResult}
use ruslock.Connection.State.{
  idle, waiting, returned, opened, opening, waking, reading, stopped, Connection, new_connection,
  update, has_sender,
}
use ruslock.Connection.Handshake.{greeting, receive_timeout}
use ruslock.Connection.Threads.{
  written, greets, response, ended, Event, sends, opens, acts, expires, reads, fails, step, run,
  is_between,
}
use ruslock.Connection.Owners.{IsSound}
use ruslock.Connection.Histories.{run-new_connection-IsSound}
use ruslock.Connection.Greeting.{greeting-eq-ok, receive_timeout-header}
use ruslock.Connection.Endings.{EndedBy, run-waiting, wake_all-returned, read_one-open}
use ruslock.Replset.Send.{new_pending}
use ruslock.Tests.Script.{id_of, key_of}

abbrev init_answer : List ℕ
init_answer = 86 ∷ 1 ∷ 0 ∷ ((id_of 1).bytes ++ (0 ∷ 4 ∷ replicate 43 0))

abbrev ping_answer : ℕ → List ℕ
ping_answer n = 86 ∷ 1 ∷ 5 ∷ ((id_of n).bytes ++ replicate 45 0)

abbrev a_ping : ℕ → Command
a_ping n = Command.ping (record { request_id = id_of n })

-- Thread 1 opens; threads 1 and 2 send, and their answers come the other way round.
abbrev opens_up : List Event
opens_up =
    opens 1
    ∷ acts 1 written
    ∷ acts 1 (greets (id_of 1) init_answer)
    ∷ acts 1 written
    ∷ acts 1 written
    ∷ acts 1 written
    ∷ []

abbrev sends_both : List Event
sends_both =
    sends 1 (a_ping 7)
    ∷ sends 2 (a_ping 8)
    ∷ acts 2 written
    ∷ acts 1 written
    ∷ acts 1 written
    ∷ acts 2 written
    ∷ reads 0 (response (ping_answer 8) none)
    ∷ reads 0 (response (ping_answer 7) none)
    ∷ acts 1 written
    ∷ acts 2 written
    ∷ []

run-new_connection-IsSound_example : IsSound (run (opens_up ++ sends_both) new_connection)
run-new_connection-IsSound_example = run-new_connection-IsSound (opens_up ++ sends_both)

abbrev ping_encoded : ℕ → EncodedCommand
ping_encoded n = record {
  request_id = id_of n;
  command_type = 5;
  header = [];
  extra = none;
  timeout = 0;
  expects_response = true;
}

-- Threads 1 and 2 wait, and thread 3 is about to wake them.
abbrev both_wait : Connection
both_wait = record {
  client_id = some (id_of 1);
  init_type = 4;
  writer = none;
  pending = (id_of 7, 1) ∷ (id_of 8, 2) ∷ [];
  closed = true;
  pc =
      update (update (update (λ i. idle) 1 (waiting (ping_encoded 7))) 2 (waiting (ping_encoded 8)))
        3 waking;
  mailbox = λ i. none;
  reader = λ k. reading;
  streams = 1;
  written = [];
}

run-waiting_example : EndedBy (ping_encoded 7) 1 none (
    step
      (acts 1 written)
      (run (reads 0 (response (ping_answer 7) none) ∷ []) (step (expires 1) both_wait)))
run-waiting_example =
    run-waiting (ping_encoded 7) 1 (reads 0 (response (ping_answer 7) none) ∷ []) written both_wait
      refl (tt, tt)

held_by_two : has_sender 2 both_wait.pending ≡ true
unfolding has_sender
held_by_two = refl

wake_all-returned_example :
    ((step (acts 3 written) both_wait).pending ≡ [])
    × ((step (acts 2 written) (step (acts 3 written) both_wait)).pc 2
        ≡ returned (ping_encoded 8) (err client_closed))
wake_all-returned_example =
    wake_all-returned (ping_encoded 8) 2 3 written written both_wait refl refl held_by_two

-- The header of a lock reply with the data flag.
abbrev with_data : List ℕ
with_data = 86 ∷ 1 ∷ 1 ∷ (replicate 17 0 ++ (0x20 ∷ replicate 43 0))

with_data-asks : response_has_extra_data with_data ≡ true
unfolding response_has_extra_data
with_data-asks = refl

abbrev reading_stream : Connection
reading_stream = record both_wait { writer = some 0; closed = false }

abbrev reset : IoError
reset = record { kind = 3; message = [] }

read_one-open_example :
    (let lost = run (reads 0 (response with_data none) ∷ opens 5 ∷ []) reading_stream in
      (lost.reader 0 ≡ stopped)
      × (lost.pending ≡ [])
      × (lost.writer ≡ some 0)
      × (lost.pc 5 ≡ opened (ok tt)))
    × (let ended_ = run (reads 0 (ended reset) ∷ fails 0 ∷ opens 5 ∷ []) reading_stream in
        (ended_.reader 0 ≡ stopped)
        × (ended_.pending ≡ [])
        × (ended_.writer ≡ none)
        × (ended_.pc 5 ≡ opening))
read_one-open_example =
    read_one-open 0 0 with_data reset 5 reading_stream refl refl with_data-asks refl between
  where
    between : is_between (reading_stream.pc 5) ≡ true
    between = unfold is_between in refl

abbrev an_init : InitCommandResult
an_init = record { request_id = id_of 1; result = 0; init_type = 4 }

greeting-eq-ok_example : (greeting init_answer ≡ ok an_init) ↔ (
    (at init_answer 0 ≡ magic)
    × (at init_answer 1 ≡ version)
    × (at init_answer 2 ≡ command_type_init)
    × (at init_answer 19 ≡ 0)
    × (an_init ≡ record {
      request_id = record { bytes = slice init_answer 3 19 };
      result = at init_answer 19;
      init_type = at init_answer 20;
    }))
greeting-eq-ok_example = greeting-eq-ok init_answer an_init

abbrev a_lock_command : LockCommand
a_lock_command = record {
  command_type = command_type_lock;
  flag = 0;
  db_id = 0;
  request_id = id_of 1;
  lock_key = key_of 2;
  lock_id = id_of 3;
  timeout = record { bits = 0x20_0005 };
  expired = record { bits = 30 };
  count = 0;
  r_count = 0;
  contents = none;
}

lock_encodes : (e : EncodedCommand) × (encode_command (Command.lock a_lock_command) ≡ ok e)
unfolding encode_command
lock_encodes = (_, refl)

receive_timeout-header_example :
    (receive_timeout default_options lock_encodes.0
      ≡ default_options.command_timeout_grace
        + from_le_bytes (slice lock_encodes.0.header 53 57) % 2 ^ 16 * 1000)
    × (receive_timeout default_options lock_encodes.0
        ≤ default_options.command_timeout_grace + 65535000)
    × ((now : ℕ)
        → (new_pending lock_encodes.0
            (Command.lock a_lock_command)
            default_options.command_timeout_grace
            now).deadline
          ≡ now + receive_timeout default_options lock_encodes.0 * 1000000)
receive_timeout-header_example =
    receive_timeout-header default_options a_lock_command lock_encodes.0
      (record { request_id = refl; lock_id = refl; lock_key = refl })
      (record { timeout = omega arith; expired = omega arith; count = omega arith }) lock_encodes.1
