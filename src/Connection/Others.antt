-- ===== src/Connection/Others.antt =====
-- blocking/connection.rs: no access of another thread, and no reader, moves a thread.
use ruslock.Prelude.{
  ℕ, ◌≡◌, ◌≢◌, refl, ap, ◌∙◌, List, [], ◌∷◌, Option, none, some, Bool, true, false, if◌then◌else◌,
  Bool-cases, inl, inr, All,
}
use ruslock.Error.{SlockError, Result, io, not_connected, command_timeout}
use ruslock.Protocol.Id.{Id16}
use ruslock.Protocol.Command.{EncodedCommand}
use ruslock.Protocol.Reply.{CommandResult}
use ruslock.Connection.State.{
  Pc, idle, encoded, registered, write_failed, waiting, timed_out, returned, refused, opening,
  connecting, greeted, attaching, spawning, opened, closing, waking, shut, ReaderPc, absent,
  reading, stopped, failing, Connection, has_sender, drain, set_pc, set_reader,
}
use ruslock.Connection.Threads.{
  Net, written, broken, unreachable, silent, greets, start_send, write_frame, give_up, to_writer,
  receive, connect, act, expire, is_between, start_open, start_close, send_to, deliver, Incoming,
  response, ended, extra_read, read_behind, read_one, fail_reader, Event, sends, opens, closes,
  acts, expires, reads, fails, step, run,
}
use ruslock.Connection.Owners.{update-other}

-- The event is none of the thread's own.
abbrev pub NotOf : ℕ → Event → Type 0
NotOf i (sends j c) = i ≢ j
NotOf i (opens j) = i ≢ j
NotOf i (closes j) = i ≢ j
NotOf i (acts j net) = i ≢ j
NotOf i (expires j) = i ≢ j
NotOf i (reads k n) = Unit
NotOf i (fails k) = Unit

give_up-other :
    (e : EncodedCommand) (x : SlockError) (i j : ℕ) (s : Connection)
    → i ≢ j
    → (give_up e x j s).pc i ≡ s.pc i
unfolding give_up set_pc
give_up-other e x i j s differ = update-other s.pc j i _ differ

to_writer-other :
    (e : EncodedCommand) (i j : ℕ) (net : Net) (w : Option ℕ) (s : Connection)
    → i ≢ j
    → (to_writer e j net w s).pc i ≡ s.pc i
unfolding to_writer write_frame set_pc
to_writer-other e i j net none s differ = give_up-other e not_connected i j s differ
to_writer-other e i j written (some k) s differ = update-other s.pc j i _ differ
to_writer-other e i j (broken x) (some k) s differ = update-other s.pc j i _ differ
to_writer-other e i j (unreachable x) (some k) s differ = refl
to_writer-other e i j (silent id x) (some k) s differ = refl
to_writer-other e i j (greets id header) (some k) s differ = refl

receive-other :
    (e : EncodedCommand) (i j : ℕ) (m : Option (Result CommandResult)) (s : Connection)
    → i ≢ j
    → (receive e j m s).pc i ≡ s.pc i
unfolding receive set_pc
receive-other e i j (some r) s differ = update-other s.pc j i _ differ
receive-other e i j none s differ = elim (Bool-cases (has_sender j s.pending)) [
  | inl held ↦ rw held refl
  | inr dropped ↦ rw dropped (update-other s.pc j i _ differ)
]

connect-other : (i j : ℕ) (net : Net) (s : Connection) → i ≢ j → (connect j net s).pc i ≡ s.pc i
unfolding connect set_pc
connect-other i j written s differ = refl
connect-other i j (broken x) s differ = refl
connect-other i j (unreachable x) s differ = update-other s.pc j i _ differ
connect-other i j (silent id x) s differ = update-other s.pc j i _ differ
connect-other i j (greets id header) s differ = update-other s.pc j i _ differ

act-other : (p : Pc) (i j : ℕ) (net : Net) (s : Connection) → i ≢ j → (act p j net s).pc i ≡ s.pc i
unfolding act set_reader drain set_pc
act-other (encoded e) i j net s differ = update-other s.pc j i _ differ
act-other (registered e) i j net s differ = to_writer-other e i j net s.writer s differ
act-other (write_failed e x) i j net s differ = give_up-other e (io x) i j s differ
act-other (waiting e) i j net s differ = receive-other e i j (s.mailbox j) s differ
act-other (timed_out e) i j net s differ = give_up-other e command_timeout i j s differ
act-other connecting i j net s differ = connect-other i j net s differ
act-other opening i j net s differ = update-other s.pc j i _ differ
act-other (greeted r) i j net s differ = update-other s.pc j i _ differ
act-other attaching i j (broken x) s differ = update-other s.pc j i _ differ
act-other attaching i j net s differ = update-other s.pc j i _ differ
act-other (spawning k) i j net s differ = update-other s.pc j i _ differ
act-other closing i j net s differ = update-other s.pc j i _ differ
act-other waking i j net s differ = update-other s.pc j i _ differ
act-other idle i j net s differ = refl
act-other (returned e r) i j net s differ = refl
act-other (refused r) i j net s differ = refl
act-other (opened r) i j net s differ = refl
act-other shut i j net s differ = refl

expire-other :
    (p : Pc) (i j : ℕ) (m : Option (Result CommandResult)) (s : Connection)
    → i ≢ j
    → (expire p j m s).pc i ≡ s.pc i
unfolding expire set_pc
expire-other (waiting e) i j none s differ = update-other s.pc j i _ differ
expire-other (waiting e) i j (some r) s differ = update-other s.pc j i _ differ
expire-other p i j m s differ = refl

if-same {ℓ} :
    {A : Type ℓ} (b : Bool) (f : Connection → Connection) (s : Connection) (P : Connection → A)
    → P (f s) ≡ P s
    → P (if b then f s else s) ≡ P s
if-same true f s P e = e
if-same false f s P e = refl

send_to-other :
    (id : Id16) (r : Result CommandResult) (w : Option ℕ) (s : Connection)
    → (send_to id r w s).pc ≡ s.pc
unfolding send_to
send_to-other id r none s = refl
send_to-other id r (some i) s = refl

read_one-other :
    (p : ReaderPc) (k : ℕ) (n : Incoming) (s : Connection) → (read_one p k n s).pc ≡ s.pc
unfolding read_one set_reader
read_one-other reading k (response header extra) s = behind (extra_read header extra)
  where
    behind : (contents : Option (Option (List ℕ))) → (read_behind contents k header s).pc ≡ s.pc
    behind none = unfold read_behind set_reader drain in refl
    behind (some contents) = unfold read_behind deliver in send_to-other _ _ _ s
read_one-other reading k (ended x) s = refl
read_one-other absent k n s = refl
read_one-other stopped k n s = refl
read_one-other (failing x) k n s = refl

fail_reader-other : (p : ReaderPc) (k : ℕ) (s : Connection) → (fail_reader p k s).pc ≡ s.pc
unfolding fail_reader set_reader drain
fail_reader-other (failing x) k s = refl
fail_reader-other absent k s = refl
fail_reader-other reading k s = refl
fail_reader-other stopped k s = refl

-- No event but its own moves a thread.
step-other : (i : ℕ) (e : Event) (s : Connection) → NotOf i e → (step e s).pc i ≡ s.pc i
unfolding step start_send start_open start_close set_pc
step-other i (sends j c) s differ =
    if-same (is_between (s.pc j)) (start_send j c) s (λ t. t.pc i) (update-other s.pc j i _ differ)
step-other i (opens j) s differ =
    if-same (is_between (s.pc j)) (start_open j) s (λ t. t.pc i) (update-other s.pc j i _ differ)
step-other i (closes j) s differ =
    if-same (is_between (s.pc j)) (start_close j) s (λ t. t.pc i) (update-other s.pc j i _ differ)
step-other i (acts j net) s differ = act-other (s.pc j) i j net s differ
step-other i (expires j) s differ = expire-other (s.pc j) i j (s.mailbox j) s differ
step-other i (reads k n) s differ = ap (λ pc. pc i) (read_one-other (s.reader k) k n s)
step-other i (fails k) s differ = ap (λ pc. pc i) (fail_reader-other (s.reader k) k s)

pub run-other :
    (i : ℕ) (es : List Event) (s : Connection) → All (NotOf i) es → (run es s).pc i ≡ s.pc i
unfolding run
run-other i [] s differ = refl
run-other i (e ∷ es) s (differ, differs) =
    run-other i es (step e s) differs ∙ step-other i e s differ
