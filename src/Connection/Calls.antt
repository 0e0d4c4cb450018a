-- ===== src/Connection/Calls.antt =====
-- blocking/connection.rs: the accesses of `send_command`, `open` and `close` keep a connection sound.
use ruslock.Prelude.{
  ℕ, ◌≡◌, refl, sym, ◌∙◌, List, [], ◌∷◌, Option, none, some, Bool, true, false, ◌==◌, if◌then◌else◌,
  Bool-cases, inl, inr,
}
use mathlib.Core.Path.{subst}
use ruslock.Error.{
  SlockError, Result, ok, err, panic, out_of_fuel, io, not_connected, client_closed,
  command_timeout,
}
use ruslock.Protocol.Id.{Id16}
use ruslock.Protocol.Command.{Command, EncodedCommand, encode_command}
use ruslock.Protocol.Reply.{CommandResult, InitCommandResult, request_id}
use ruslock.Connection.State.{
  Pc, idle, encoded, registered, write_failed, waiting, timed_out, returned, refused, opening,
  connecting, greeted, attaching, spawning, opened, closing, waking, shut, Connection, update,
  has_sender, drain, set_pc, set_reader,
}
use ruslock.Connection.Handshake.{greeting}
use ruslock.Connection.Threads.{
  Net, written, broken, unreachable, silent, greets, start_encoded, start_send, write_frame,
  give_up, to_writer, receive, greeted_by, connect, act, expire, is_between, start_open, open_by,
}
use ruslock.Connection.Owners.{
  InFlight, Fits, HasOwnReply, NoEntry, AreSound, IsSound, NoEntry-owned, NoEntry-remove, not_same,
  ==-false,
}
use ruslock.Connection.Sound.{onwards, leaves, removes, drains, registers}

-- Neither in flight nor behind a reply.
abbrev IsFree : Pc → Type 0
IsFree (registered e) = ⊥
IsFree (write_failed e x) = ⊥
IsFree (waiting e) = ⊥
IsFree (timed_out e) = ⊥
IsFree (returned e r) = ⊥
IsFree p = Unit

not-InFlight : (p q : Pc) → q ≡ p → IsFree p → (id : Id16) → ¬ InFlight q id
not-InFlight p q here free id h = at_place p free (subst (λ p. InFlight p id) here h)
  where
    at_place : (p : Pc) → IsFree p → ¬ InFlight p id
    at_place (registered e) free h = free
    at_place (write_failed e x) free h = free
    at_place (waiting e) free h = free
    at_place (timed_out e) free h = free
    at_place p free h = h

Free-Fits : (p : Pc) → IsFree p → (id : Id16) → Fits p id
Free-Fits (registered e) free id = absurd free
Free-Fits (write_failed e x) free id = absurd free
Free-Fits (waiting e) free id = absurd free
Free-Fits (timed_out e) free id = absurd free
Free-Fits p free id = tt

Free-HasOwnReply : (p : Pc) → IsFree p → HasOwnReply p
Free-HasOwnReply (returned e r) free = absurd free
Free-HasOwnReply p free = tt

-- A thread goes from outside a call to outside a call.
pub stays_out :
    {pc : ℕ → Pc} {pending : List (Id16 × ℕ)} {mailbox : ℕ → Option (Result CommandResult)} (i : ℕ)
    (p : Pc)
    → ((id : Id16) → ¬ InFlight (pc i) id)
    → IsFree p
    → AreSound pc pending mailbox
    → AreSound (update pc i p) pending mailbox
stays_out {pc} {pending} i p grounded free v =
    leaves i p (NoEntry-owned pc i pending grounded v.owned) (Free-Fits p free)
      (Free-HasOwnReply p free) v

give_up-IsSound :
    (e : EncodedCommand) (x : SlockError) (i : ℕ) (s : Connection)
    → InFlight (s.pc i) e.request_id
    → IsSound s
    → IsSound (give_up e x i s)
unfolding give_up set_pc
give_up-IsSound e x i s flight v =
    leaves i (returned e (err x)) (NoEntry-remove s.pc i e.request_id s.pending flight v.owned)
      (λ id. tt) tt (removes e.request_id v)

to_writer-IsSound :
    (e : EncodedCommand) (i : ℕ) (net : Net) (w : Option ℕ) (s : Connection)
    → s.pc i ≡ registered e
    → IsSound s
    → IsSound (to_writer e i net w s)
unfolding to_writer write_frame set_pc
to_writer-IsSound e i net none s here v =
    give_up-IsSound e not_connected i s (subst (λ p. InFlight p e.request_id) (sym here) refl) v
to_writer-IsSound e i written (some k) s here v =
    onwards i (waiting e) (λ id h. subst (λ p. InFlight p id) here h)
      (λ id h. subst (λ p. Fits p id) here h) tt v
to_writer-IsSound e i (broken x) (some k) s here v =
    onwards i (write_failed e x) (λ id h. subst (λ p. InFlight p id) here h)
      (λ id h. subst (λ p. Fits p id) here h) tt v
to_writer-IsSound e i (unreachable x) (some k) s here v = v
to_writer-IsSound e i (silent id x) (some k) s here v = v
to_writer-IsSound e i (greets id header) (some k) s here v = v

-- A thread that takes its message returns the reply to its own command.
take-IsSound :
    (e : EncodedCommand) (i : ℕ) (r : Result CommandResult) (s : Connection)
    → s.pc i ≡ waiting e
    → s.mailbox i ≡ some r
    → IsSound s
    → IsSound (set_pc i (returned e r) s)
unfolding set_pc
take-IsSound e i r s here message v =
    leaves i (returned e r) (v.single i r message) (λ id. tt) (own r message) v
  where
    own : (r : Result CommandResult) → s.mailbox i ≡ some r → HasOwnReply (returned e r)
    own (ok a) m = sym (subst (λ p. Fits p (request_id a)) here (v.fitting i a m))
    own (err x) m = tt
    own panic m = tt
    own out_of_fuel m = tt

has_sender-here :
    (i : ℕ) (entry : Id16 × ℕ) (entries : List (Id16 × ℕ))
    → (entry.1 == i) ≡ true
    → has_sender i (entry ∷ entries) ≡ true
unfolding has_sender
has_sender-here i entry entries e = rw e refl

pub has_sender-past :
    (i : ℕ) (entry : Id16 × ℕ) (entries : List (Id16 × ℕ))
    → (entry.1 == i) ≡ false
    → has_sender i (entry ∷ entries) ≡ has_sender i entries
unfolding has_sender
has_sender-past i entry entries e = rw e refl

no_sender : (i : ℕ) (entries : List (Id16 × ℕ)) → has_sender i entries ≡ false → NoEntry i entries
unfolding has_sender
no_sender i [] h = tt
no_sender i (entry ∷ entries) h = elim (Bool-cases (entry.1 == i)) [
  | inl same ↦ absurd (not_same _ (has_sender-here i entry entries same) h)
  | inr other ↦ (
    ==-false entry.1 i other,
    no_sender i entries (sym (has_sender-past i entry entries other) ∙ h),
  )
]

receive-IsSound :
    (e : EncodedCommand) (i : ℕ) (m : Option (Result CommandResult)) (s : Connection)
    → s.pc i ≡ waiting e
    → s.mailbox i ≡ m
    → IsSound s
    → IsSound (receive e i m s)
unfolding receive
receive-IsSound e i (some r) s here message v = take-IsSound e i r s here message v
receive-IsSound e i none s here message v = elim (Bool-cases (has_sender i s.pending)) [
  | inl held ↦ rw held v
  | inr dropped ↦ rw dropped (
      unfold set_pc in
      leaves i (returned e (err client_closed)) (no_sender i s.pending dropped) (λ id. tt) tt v)
]

pub expire-IsSound :
    (p : Pc) (i : ℕ) (m : Option (Result CommandResult)) (s : Connection)
    → s.pc i ≡ p
    → s.mailbox i ≡ m
    → IsSound s
    → IsSound (expire p i m s)
unfolding expire set_pc
expire-IsSound (waiting e) i none s here message v =
    onwards i (timed_out e) (λ id h. subst (λ p. InFlight p id) here h)
      (λ id h. subst (λ p. Fits p id) here h) tt v
expire-IsSound (waiting e) i (some r) s here message v = take-IsSound e i r s here message v
expire-IsSound p i m s here message v = v

start_encoded-IsFree : (r : Result EncodedCommand) → IsFree (start_encoded r)
unfolding start_encoded
start_encoded-IsFree (ok e) = tt
start_encoded-IsFree (err x) = tt
start_encoded-IsFree panic = tt
start_encoded-IsFree out_of_fuel = tt

greeted_by-IsFree : (r : Result InitCommandResult) → IsFree (greeted_by r)
unfolding greeted_by
greeted_by-IsFree (ok e) = tt
greeted_by-IsFree (err x) = tt
greeted_by-IsFree panic = tt
greeted_by-IsFree out_of_fuel = tt

connect-IsSound :
    (i : ℕ) (net : Net) (s : Connection)
    → s.pc i ≡ connecting
    → IsSound s
    → IsSound (connect i net s)
unfolding connect set_pc
connect-IsSound i written s here v = v
connect-IsSound i (broken x) s here v = v
connect-IsSound i (unreachable x) s here v = stays_out i _ (not-InFlight connecting _ here tt) tt v
connect-IsSound i (silent fresh x) s here v = stays_out i _ (not-InFlight connecting _ here tt) tt v
connect-IsSound i (greets fresh header) s here v =
    stays_out i _ (not-InFlight connecting _ here tt) (greeted_by-IsFree (greeting header)) v

pub act-IsSound :
    (p : Pc) (i : ℕ) (net : Net) (s : Connection) → s.pc i ≡ p → IsSound s → IsSound (act p i net s)
unfolding act set_pc set_reader drain
act-IsSound (encoded e) i net s here v =
    registers i e.request_id (registered e) (not-InFlight _ _ here tt) refl tt v
act-IsSound (registered e) i net s here v = to_writer-IsSound e i net s.writer s here v
act-IsSound (write_failed e x) i net s here v =
    give_up-IsSound e (io x) i s (subst (λ p. InFlight p e.request_id) (sym here) refl) v
act-IsSound (waiting e) i net s here v = receive-IsSound e i (s.mailbox i) s here refl v
act-IsSound (timed_out e) i net s here v =
    give_up-IsSound e command_timeout i s (subst (λ p. InFlight p e.request_id) (sym here) refl) v
act-IsSound connecting i net s here v = connect-IsSound i net s here v
act-IsSound opening i net s here v = stays_out i _ (not-InFlight _ _ here tt) tt v
act-IsSound (greeted r) i net s here v = stays_out i _ (not-InFlight _ _ here tt) tt v
act-IsSound attaching i (broken x) s here v = stays_out i _ (not-InFlight _ _ here tt) tt v
act-IsSound attaching i net s here v = stays_out i _ (not-InFlight _ _ here tt) tt v
act-IsSound (spawning k) i net s here v = stays_out i _ (not-InFlight _ _ here tt) tt v
act-IsSound closing i net s here v = stays_out i _ (not-InFlight _ _ here tt) tt v
act-IsSound waking i net s here v =
    stays_out i _ (not-InFlight _ _ here tt) tt (drains client_closed v)
act-IsSound idle i net s here v = v
act-IsSound (returned e r) i net s here v = v
act-IsSound (refused r) i net s here v = v
act-IsSound (opened r) i net s here v = v
act-IsSound shut i net s here v = v

-- A call begins on a thread that is in none.
pub if_between-IsSound :
    (i : ℕ) (p : Pc) (f : Connection → Connection) (s : Connection)
    → s.pc i ≡ p
    → (((id : Id16) → ¬ InFlight (s.pc i) id) → IsSound (f s))
    → IsSound s
    → IsSound (if is_between p then f s else s)
unfolding is_between
if_between-IsSound i idle f s here h v = h (not-InFlight _ _ here tt)
if_between-IsSound i (returned e r) f s here h v = h (λ id x. subst (λ p. InFlight p id) here x)
if_between-IsSound i (refused r) f s here h v = h (not-InFlight _ _ here tt)
if_between-IsSound i (opened r) f s here h v = h (not-InFlight _ _ here tt)
if_between-IsSound i shut f s here h v = h (not-InFlight _ _ here tt)
if_between-IsSound i p f s here h v = v

pub start_send-IsSound :
    (i : ℕ) (c : Command) (s : Connection)
    → ((id : Id16) → ¬ InFlight (s.pc i) id)
    → IsSound s
    → IsSound (start_send i c s)
unfolding start_send set_pc
start_send-IsSound i c s grounded v = stays_out i _ grounded (by_closed s.closed) v
  where
    by_closed :
        (closed : Bool)
        → IsFree (if closed then refused (err client_closed) else start_encoded (encode_command c))
    by_closed true = tt
    by_closed false = start_encoded-IsFree (encode_command c)

pub start_open-IsSound :
    (i : ℕ) (s : Connection)
    → ((id : Id16) → ¬ InFlight (s.pc i) id)
    → IsSound s
    → IsSound (start_open i s)
unfolding start_open set_pc
start_open-IsSound i s grounded v = stays_out i _ grounded (by_writer s.writer) v
  where
    by_writer : (w : Option ℕ) → IsFree (open_by w)
    by_writer none = tt
    by_writer (some k) = tt
