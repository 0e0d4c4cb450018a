-- ===== src/Connection/Histories.antt =====
-- blocking/connection.rs: what holds of a connection after any history of its threads.
use ruslock.Prelude.{ℕ, ◌≡◌, refl, List, [], ◌∷◌, Option, none, some}
use ruslock.Error.{Result, ok, err, panic, out_of_fuel, io, client_closed}
use ruslock.Protocol.Id.{Id16}
use ruslock.Protocol.Codec.{decode_response}
use ruslock.Protocol.Reply.{CommandResult, request_id}
use ruslock.Connection.State.{
  closing, ReaderPc, absent, reading, stopped, failing, Connection, new_connection, find, drain,
  set_pc, set_reader,
}
use ruslock.Connection.Threads.{
  start_send, start_open, start_close, key_of, send_to, deliver, Incoming, response, ended,
  extra_read, read_behind, read_one, fail_reader, Event, sends, opens, closes, acts, expires, reads,
  fails, step, run,
}
use ruslock.Connection.Owners.{IsSound, InFlight-find}
use ruslock.Connection.Calls.{
  act-IsSound, expire-IsSound, if_between-IsSound, start_send-IsSound, start_open-IsSound,
  stays_out,
}
use ruslock.Connection.Sound.{drains, delivers}

key_of-ok :
    (header : List ℕ) (r : Result CommandResult) (a : CommandResult)
    → r ≡ ok a
    → request_id a ≡ key_of header r
unfolding key_of
key_of-ok header (ok a') a e = cc
key_of-ok header (err x) a e = cc
key_of-ok header panic a e = cc
key_of-ok header out_of_fuel a e = cc

send_to-IsSound :
    (id : Id16) (r : Result CommandResult) (w : Option ℕ) (s : Connection)
    → find id s.pending ≡ w
    → ((a : CommandResult) → r ≡ ok a → request_id a ≡ id)
    → IsSound s
    → IsSound (send_to id r w s)
unfolding send_to
send_to-IsSound id r none s found same v = v
send_to-IsSound id r (some i) s found same v =
    delivers id i r (InFlight-find s.pc id i s.pending found v.owned) same v

read_behind-IsSound :
    (contents : Option (Option (List ℕ))) (k : ℕ) (header : List ℕ) (s : Connection)
    → IsSound s
    → IsSound (read_behind contents k header s)
unfolding read_behind deliver set_reader drain
read_behind-IsSound none k header s v = drains client_closed v
read_behind-IsSound (some contents) k header s v =
    let decoded = decode_response header contents in
    send_to-IsSound (key_of header decoded) decoded _ s refl (key_of-ok header decoded) v

read_one-IsSound :
    (p : ReaderPc) (k : ℕ) (n : Incoming) (s : Connection) → IsSound s → IsSound (read_one p k n s)
unfolding read_one set_reader
read_one-IsSound reading k (response header extra) s v =
    read_behind-IsSound (extra_read header extra) k header s v
read_one-IsSound reading k (ended x) s v = v
read_one-IsSound absent k n s v = v
read_one-IsSound stopped k n s v = v
read_one-IsSound (failing x) k n s v = v

fail_reader-IsSound :
    (p : ReaderPc) (k : ℕ) (s : Connection) → IsSound s → IsSound (fail_reader p k s)
unfolding fail_reader set_reader drain
fail_reader-IsSound (failing x) k s v = drains (io x) v
fail_reader-IsSound absent k s v = v
fail_reader-IsSound reading k s v = v
fail_reader-IsSound stopped k s v = v

step-IsSound : (e : Event) (s : Connection) → IsSound s → IsSound (step e s)
unfolding step start_close set_pc
step-IsSound (sends i c) s v =
    if_between-IsSound i (s.pc i) (start_send i c) s refl
      (λ grounded. start_send-IsSound i c s grounded v) v
step-IsSound (opens i) s v =
    if_between-IsSound i (s.pc i) (start_open i) s refl
      (λ grounded. start_open-IsSound i s grounded v) v
step-IsSound (closes i) s v =
    if_between-IsSound i (s.pc i) (start_close i) s refl
      (λ grounded. stays_out i closing grounded tt v) v
step-IsSound (acts i net) s v = act-IsSound (s.pc i) i net s refl v
step-IsSound (expires i) s v = expire-IsSound (s.pc i) i (s.mailbox i) s refl refl v
step-IsSound (reads k n) s v = read_one-IsSound (s.reader k) k n s v
step-IsSound (fails k) s v = fail_reader-IsSound (s.reader k) k s v

run-IsSound : (es : List Event) (s : Connection) → IsSound s → IsSound (run es s)
unfolding run
run-IsSound [] s v = v
run-IsSound (e ∷ es) s v = run-IsSound es (step e s) (step-IsSound e s v)

new_connection-IsSound : IsSound new_connection
unfolding new_connection
new_connection-IsSound = record {
  owned = tt;
  single = λ i r e. cc;
  fitting = λ i a e. cc;
  own_replies = λ i. tt;
}

-- After any history of a new connection, with any number of threads that open, close and send in any
-- order, with any answers and failures of the network: each pending entry belongs to a call that is
-- still in flight and has its id, so a call that is over has left none; and a call that returned a
-- reply returned one with the request id of its command.
pub run-new_connection-IsSound : (es : List Event) → IsSound (run es new_connection)
run-new_connection-IsSound es = run-IsSound es new_connection new_connection-IsSound
