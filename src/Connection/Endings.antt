-- ===== src/Connection/Endings.antt =====
-- blocking/connection.rs: how the calls of `send_command` end, and what a lost stream leaves behind.
use ruslock.Prelude.{
  ℕ, ◌≡◌, ◌≢◌, refl, sym, ap, ◌∙◌, List, [], ◌∷◌, Option, none, some, Bool, true, false, ◌==◌,
  ==_iff, if◌then◌else◌, Bool-cases, inl, inr, All,
}
use mathlib.Core.Path.{subst}
use ruslock.Error.{IoError, Result, ok, err, client_closed, command_timeout, io}
use ruslock.Protocol.Id.{Id16}
use ruslock.Protocol.Command.{EncodedCommand}
use ruslock.Protocol.Codec.{response_has_extra_data}
use ruslock.Protocol.Reply.{CommandResult}
use ruslock.Connection.State.{
  Pc, waiting, timed_out, returned, opening, opened, waking, reading, stopped, failing, Connection,
  update, find, has_sender, drain, send_all, set_pc, set_reader,
}
use ruslock.Connection.Threads.{
  Net, give_up, receive, act, expire, is_between, start_open, open_by, response, ended, extra_read,
  read_behind, read_one, fail_reader, Event, opens, acts, expires, reads, fails, step, run,
}
use ruslock.Connection.Owners.{update-same, update-other, update_all, find-remove}
use ruslock.Connection.Calls.{has_sender-past}
use ruslock.Connection.Others.{NotOf, run-other}

-- Where the timeout of `recv_timeout` leaves a call, by the message that is there: it returns the
-- message, or it is before the removal.
abbrev pub after_timeout : EncodedCommand → Option (Result CommandResult) → Pc
after_timeout e none = timed_out e
after_timeout e (some r) = returned e r

expire-after_timeout :
    (e : EncodedCommand) (i : ℕ) (m : Option (Result CommandResult)) (s : Connection)
    → (expire (waiting e) i m s).pc i ≡ after_timeout e m
unfolding expire set_pc
expire-after_timeout e i none s = update-same s.pc i _
expire-after_timeout e i (some r) s = update-same s.pc i _

-- How a call has ended, by the message that was there when its timeout passed.
abbrev pub EndedBy : EncodedCommand → ℕ → Option (Result CommandResult) → Connection → Type 0
EndedBy e i none s =
    (s.pc i ≡ returned e (err command_timeout)) × (find e.request_id s.pending ≡ none)
EndedBy e i (some r) s = s.pc i ≡ returned e r

act-EndedBy :
    (e : EncodedCommand) (i : ℕ) (net : Net) (m : Option (Result CommandResult)) (s : Connection)
    → s.pc i ≡ after_timeout e m
    → EndedBy e i m (act (s.pc i) i net s)
unfolding act give_up set_pc
act-EndedBy e i net none s here =
    subst (λ p. EndedBy e i none (act p i net s)) (sym here)
      (update-same s.pc i _, find-remove e.request_id s.pending)
act-EndedBy e i net (some r) s here =
    subst (λ p. EndedBy e i (some r) (act p i net s)) (sym here) here

-- A call whose timeout passes while it waits: a message that is there by then is its result. If
-- there is none, then after its next access, whatever the other threads and the readers did in
-- between, its result is `CommandTimeout` (also when its answer was delivered meanwhile) and no
-- request is pending under its id. That the access gets the mutex that it takes is not stated.
pub run-waiting :
    (e : EncodedCommand) (i : ℕ) (others : List Event) (net : Net) (s : Connection)
    → s.pc i ≡ waiting e
    → All (NotOf i) others
    → EndedBy e i (s.mailbox i) (step (acts i net) (run others (step (expires i) s)))
unfolding step
run-waiting e i others net s here differ =
    let s1 : Connection = expire (s.pc i) i (s.mailbox i) s in
    act-EndedBy e i net (s.mailbox i) (run others s1) (
      run-other i others s1 differ
      ∙ subst (λ p. (expire p i (s.mailbox i) s).pc i ≡ after_timeout e (s.mailbox i)) (sym here)
          (expire-after_timeout e i (s.mailbox i) s))

-- A message from draining reaches every thread with a sender, and stays.
send_all-later :
    (r : Result CommandResult) (i : ℕ) (entries : List (Id16 × ℕ))
    (mailbox : ℕ → Option (Result CommandResult))
    → mailbox i ≡ some r
    → send_all r entries mailbox i ≡ some r
unfolding send_all
send_all-later r i [] mailbox h = h
send_all-later r i (entry ∷ entries) mailbox h =
    send_all-later r i entries (update mailbox entry.1 (some r)) (
      update_all (λ j m. mailbox j ≡ some r → m ≡ some r) mailbox entry.1 (some r) (λ e. refl)
        (λ j differ e. e) i h)

send_all-here :
    (r : Result CommandResult) (i : ℕ) (entries : List (Id16 × ℕ))
    (mailbox : ℕ → Option (Result CommandResult))
    → has_sender i entries ≡ true
    → send_all r entries mailbox i ≡ some r
unfolding send_all has_sender
send_all-here r i [] mailbox h = cc
send_all-here r i (entry ∷ entries) mailbox h = elim (Bool-cases (entry.1 == i)) [
  | inl same ↦
      send_all-later r i entries (update mailbox entry.1 (some r))
        (rw ((==_iff entry.1 i).0 same) (update-same mailbox i (some r)))
  | inr other ↦
      send_all-here r i entries (update mailbox entry.1 (some r))
        (sym (has_sender-past i entry entries other) ∙ h)
]

-- `close` at its last access, `wake_all`: nothing is pending any more, and every call that waited
-- for an answer gets `ClientClosed` at its next access.
pub wake_all-returned :
    (e : EncodedCommand) (i j : ℕ) (net net' : Net) (s : Connection)
    → s.pc j ≡ waking
    → s.pc i ≡ waiting e
    → has_sender i s.pending ≡ true
    → ((step (acts j net) s).pending ≡ [])
      × ((step (acts i net') (step (acts j net) s)).pc i ≡ returned e (err client_closed))
unfolding step
wake_all-returned e i j net net' s closer waiter held =
    subst
      (λ p.
        ((act p j net s).pending ≡ [])
        × ((act ((act p j net s).pc i) i net' (act p j net s)).pc i
            ≡ returned e (err client_closed)))
      (sym closer) (emptied, woken)
  where
    apart : waiting e ≢ waking
    apart h = cc

    s1 : Connection
    s1 = act waking j net s

    emptied : s1.pending ≡ []
    emptied = unfold act drain set_pc in refl

    message : s1.mailbox i ≡ some (err client_closed)
    message =
        unfold act drain set_pc in send_all-here (err client_closed) i s.pending s.mailbox held

    still : s1.pc i ≡ waiting e
    still =
        unfold act drain set_pc in
        (update-other s.pc j i _ (λ same. apart (sym waiter ∙ (ap s.pc same ∙ closer))) ∙ waiter)

    woken : (act (s1.pc i) i net' s1).pc i ≡ returned e (err client_closed)
    woken =
        subst (λ p. (act p i net' s1).pc i ≡ returned e (err client_closed)) (sym still)
          (unfold act in
            subst (λ m. (receive e i m s1).pc i ≡ returned e (err client_closed)) (sym message)
              (unfold receive set_pc in update-same s1.pc i _))

lost_extra :
    (k : ℕ) (header : List ℕ) (s : Connection)
    → s.reader k ≡ reading
    → response_has_extra_data header ≡ true
    → step (reads k (response header none)) s ≡ set_reader k stopped (drain (err client_closed) s)
unfolding step read_one read_behind extra_read
lost_extra k header s reads_ asks = rw (reads_, asks) refl

-- `fail_reader` of a reader that fails.
abbrev failed_reader : ℕ → IoError → Connection → Connection
failed_reader k x s = set_reader k stopped (record (drain (err (io x)) s) { writer = none })

lost_header :
    (k : ℕ) (x : IoError) (s : Connection)
    → s.reader k ≡ reading
    → s.closed ≡ false
    → step (fails k) (step (reads k (ended x)) s) ≡ failed_reader k x (set_reader k (failing x) s)
unfolding step
lost_header k x s reads_ live =
    ap (λ t. fail_reader (t.reader k) k t) first
    ∙ ap (λ p. fail_reader p k (set_reader k (failing x) s)) here
    ∙ last
  where
    first : read_one (s.reader k) k (ended x) s ≡ set_reader k (failing x) s
    first =
        unfold read_one in
        (ap (λ p. read_one p k (ended x) s) reads_
          ∙ ap (λ (closed : Bool). set_reader k (if closed then stopped else failing x) s) live)

    here : (set_reader k (failing x) s).reader k ≡ failing x
    here = unfold set_reader in update-same s.reader k (failing x)

    last :
        fail_reader (failing x) k (set_reader k (failing x) s)
        ≡ failed_reader k x (set_reader k (failing x) s)
    last = unfold fail_reader in refl

open_by-writer :
    (i : ℕ) (w : Option ℕ) (s : Connection)
    → is_between (s.pc i) ≡ true
    → s.writer ≡ w
    → step (opens i) s ≡ set_pc i (open_by w) s
unfolding step start_open
open_by-writer i w s between writes = rw between (ap (λ v. set_pc i (open_by v) s) writes)

-- A stream on which the extra data of a reply cannot be read: the reader stops and the pending calls
-- fail, but the stream stays the writer, and an `open` behind that returns at once and starts no
-- reader. Where the header cannot be read and the connection is not closed, the writer is taken, and
-- an `open` behind that connects anew.
pub read_one-open :
    (k j : ℕ) (header : List ℕ) (x : IoError) (i : ℕ) (s : Connection)
    → s.reader k ≡ reading
    → s.writer ≡ some j
    → response_has_extra_data header ≡ true
    → s.closed ≡ false
    → is_between (s.pc i) ≡ true
    → (let lost = run (reads k (response header none) ∷ opens i ∷ []) s in
        (lost.reader k ≡ stopped)
        × (lost.pending ≡ [])
        × (lost.writer ≡ some j)
        × (lost.pc i ≡ opened (ok tt)))
      × (let ended_ = run (reads k (ended x) ∷ fails k ∷ opens i ∷ []) s in
          (ended_.reader k ≡ stopped)
          × (ended_.pending ≡ [])
          × (ended_.writer ≡ none)
          × (ended_.pc i ≡ opening))
unfolding run set_pc set_reader drain
read_one-open k j header x i s reads_ writes asks live between = (
  subst
      (λ t.
        (t.reader k ≡ stopped) × (t.pending ≡ []) × (t.writer ≡ some j) × (t.pc i ≡ opened (ok tt)))
      (sym (
        ap (step (opens i)) (lost_extra k header s reads_ asks)
        ∙ open_by-writer i (some j) lost between writes))
      (update-same s.reader k stopped, refl, writes, update-same s.pc i _),
  subst (λ t. (t.reader k ≡ stopped) × (t.pending ≡ []) × (t.writer ≡ none) × (t.pc i ≡ opening))
      (sym (
        ap (step (opens i)) (lost_header k x s reads_ live)
        ∙ open_by-writer i none broken_ between refl))
      (update-same (set_reader k (failing x) s).reader k stopped, refl, refl, update-same s.pc i _),
)
  where
    lost : Connection
    lost = set_reader k stopped (drain (err client_closed) s)

    broken_ : Connection
    broken_ = failed_reader k x (set_reader k (failing x) s)
