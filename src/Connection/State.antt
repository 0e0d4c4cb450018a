-- ===== src/Connection/State.antt =====
-- blocking/connection.rs: the state that the threads of one connection share, and where each stands.
use ruslock.Prelude.{
  ℕ, List, [], ◌∷◌, Option, none, some, Bool, true, false, not, ◌==◌, if◌then◌else◌,
}
use ruslock.Error.{IoError, Result}
use ruslock.Protocol.Id.{Id16, id_eq}
use ruslock.Protocol.Command.{EncodedCommand}
use ruslock.Protocol.Reply.{CommandResult, InitCommandResult}

-- Where a thread of the client stands in `send_command`, `open` or `close`, before its next access
-- to shared state, with the locals that are live there.
pub data Pc : Type 0 where
  idle : Pc
  encoded : EncodedCommand → Pc  -- before the insertion into `pending`
  registered : EncodedCommand → Pc  -- before the lock on `writer`
  write_failed : EncodedCommand → IoError → Pc  -- before the removal
  waiting : EncodedCommand → Pc  -- in `recv_timeout`
  timed_out : EncodedCommand → Pc  -- before the removal
  returned : EncodedCommand → Result CommandResult → Pc  -- behind `send_command`
  refused : Result CommandResult → Pc  -- behind a `send_command` that encoded nothing
  opening : Pc  -- `writer` was empty
  connecting : Pc
  greeted : InitCommandResult → Pc  -- before `init_type` is set
  attaching : Pc  -- before `writer` is set
  spawning : ℕ → Pc  -- before the reader of a stream starts
  opened : Result (Unit {0}) → Pc
  closing : Pc  -- `closed` is set
  waking : Pc  -- before `wake_all`
  shut : Pc

-- Where the reader thread of a stream stands. `failing` has read `closed` as false.
pub data ReaderPc : Type 0 where
  absent reading stopped : ReaderPc
  failing : IoError → ReaderPc

-- `Connection`, with its threads. A stream is named by a number, and `streams` is the next one. The
-- sender in a `pending` entry is the thread whose `send_command` made the channel, and `mailbox` is
-- what the channel of that thread holds. `written` records the frames that went out, oldest first.
pub record Connection : Type 0 where
  pub client_id : Option Id16
  pub init_type : ℕ
  pub writer : Option ℕ
  pub pending : List (Id16 × ℕ)
  pub closed : Bool
  pub pc : ℕ → Pc
  pub mailbox : ℕ → Option (Result CommandResult)
  pub reader : ℕ → ReaderPc
  pub streams : ℕ
  pub written : List (ℕ × List ℕ)

-- `Connection::new`.
unfoldable pub new_connection : Connection
new_connection = record {
  client_id = none;
  init_type = 0;
  writer = none;
  pending = [];
  closed = false;
  pc = λ i. idle;
  mailbox = λ i. none;
  reader = λ k. absent;
  streams = 0;
  written = [];
}

abbrev pub update {ℓ} : {A : Type ℓ} → (ℕ → A) → ℕ → A → ℕ → A
update f i a j = if j == i then a else f j

-- `HashMap::remove`.
unfoldable pub remove : Id16 → List (Id16 × ℕ) → List (Id16 × ℕ)
unfolding id_eq
remove id [] = []
remove id (entry ∷ entries) =
    let rest = remove id entries in if not (id_eq entry.0 id) then entry ∷ rest else rest

-- `HashMap::insert`: a sender under the same id is dropped.
unfoldable pub insert : Id16 → ℕ → List (Id16 × ℕ) → List (Id16 × ℕ)
unfolding remove
insert id i entries = (id, i) ∷ remove id entries

-- What `HashMap::remove` returns.
unfoldable pub find : Id16 → List (Id16 × ℕ) → Option ℕ
unfolding id_eq
find id [] = none
find id (entry ∷ entries) =
    let rest = find id entries in if id_eq entry.0 id then some entry.1 else rest

-- Whether a sender of the thread's channel is left.
unfoldable pub has_sender : ℕ → List (Id16 × ℕ) → Bool
has_sender i [] = false
has_sender i (entry ∷ entries) =
    let rest = has_sender i entries in if entry.1 == i then true else rest

-- `for (_, tx) in pending.drain() { tx.send(r) }`.
unfoldable pub send_all :
    Result CommandResult
    → List (Id16 × ℕ)
    → (ℕ → Option (Result CommandResult))
    → ℕ
    → Option (Result CommandResult)
send_all r [] mailbox = mailbox
send_all r (entry ∷ entries) mailbox = send_all r entries (update mailbox entry.1 (some r))

unfoldable pub drain : Result CommandResult → Connection → Connection
unfolding send_all
drain r s = record s { pending = []; mailbox = send_all r s.pending s.mailbox }

unfoldable pub set_pc : ℕ → Pc → Connection → Connection
set_pc i p s = record s { pc = update s.pc i p }

unfoldable pub set_reader : ℕ → ReaderPc → Connection → Connection
set_reader k p s = record s { reader = update s.reader k p }
