-- ===== src/Replset/Timed.antt =====
-- blocking/replset.rs: what takes time in `send_pending_command`, and that the rounds over the nodes
-- end. The clients of the nodes and the clock are parameters: what a client does ends and takes no
-- negative time.
use ruslock.Prelude.{
  ℕ, zero, suc, ◌+◌, ◌%◌, ◌≤◌, ◌≡◌, ◌≢◌, refl, arith, Option, none, some, ltb, ◌&&◌, Bool-cases,
  inl, inr,
}
use ruslock.Error.{SlockError, Result, ok, err, panic, out_of_fuel}
use ruslock.Protocol.Id.{Id16}
use ruslock.Protocol.Command.{Command}
use ruslock.Protocol.Reply.{CommandResult}
use ruslock.Replset.{
  Nodes, Replset, PendingCommand, lock_state_error, retryable_transport_error, set_active_index,
}
use ruslock.Replset.Send.{
  Attempt, Turn, Sent, set_retry, in_env, or_go_on, after_error, after_answer, after_send,
  after_open, try_node, try_nodes_from,
}
use ruslock.Replset.Keeps.{IsKept}

-- The time in a state of the clients, which never goes back: what `Instant::now` reads lies between
-- the time before and after, `thread::sleep` takes at least the time it is given, and a client
-- always ends what it sends.
pub record IsTimed {S : Type 0} (b : Nodes S) (clock : S → ℕ) : Type 0 where
  pub opens : (i : ℕ) (s : S) → clock s ≤ clock (b.open_node i s).1
  pub sends : (i : ℕ) (c : Command) (s : S) → clock s ≤ clock (b.send_node i c s).1
  pub ends : (i : ℕ) (c : Command) (s : S) → (b.send_node i c s).0 ≢ out_of_fuel
  pub closes : (i : ℕ) (s : S) → clock s ≤ clock (b.close_node i s)
  pub reads : (s : S) → clock s ≤ (b.now s).0
  pub passes : (s : S) → (b.now s).0 ≤ clock (b.now s).1
  pub sleeps : (d : ℕ) (s : S) → clock s + d ≤ clock (b.sleep d s)

-- There are `n` clients, and the time is `start` or later.
pub record IsLater {S : Type 0} (clock : S → ℕ) (n start : ℕ) (p : Replset S) : Type 0 where
  pub size : p.clients ≡ n
  pub later : start ≤ clock p.env

abbrev pub stuck : Option (Result CommandResult)
stuck = some out_of_fuel

abbrev pub Ends : {S : Type 0} → Turn S → Type 0
Ends t = t.0 ≢ stuck

abbrev pub Returns : {S : Type 0} → Sent S → Type 0
Returns r = r.0 ≢ out_of_fuel

not_none : none ≢ stuck
not_none h = cc

not_err : (e : SlockError) → some (err e) ≢ stuck
not_err e h = cc

not_ok : (r : CommandResult) → some (ok r) ≢ stuck
not_ok r h = cc

not_panic : some panic ≢ stuck
not_panic h = cc

pub later_trans : (x y z : ℕ) → x ≤ y → y ≤ z → x ≤ z
later_trans x y z h h' = omega (arith, h, h')

module _ {S : Type 0} (b : Nodes S) {clock : S → ℕ} (timed : IsTimed b clock) where
  pub IsLater-IsKept : (n start : ℕ) (id : Id16) → IsKept b n id (IsLater clock n start)
  IsLater-IsKept n start id = record {
    size = λ p h. h.size;
    opens = λ i p h. after p _ h (timed.opens i p.env);
    sends = λ i c p h. after p _ h (timed.sends i c p.env);
    closes = λ i p h. after p _ h (timed.closes i p.env);
    nows = λ p h. after p _ h (later_trans _ _ _ (timed.reads p.env) (timed.passes p.env));
    sleeps = λ d p h. after p _ h (shorter d _ _ (timed.sleeps d p.env));
    retries = λ t p h. unfold set_retry in record { size = h.size; later = h.later };
    activates =
        λ i p inside h. unfold set_active_index in record { size = h.size; later = h.later };
  }
    where
      after :
          (p : Replset S) (s : S)
          → IsLater clock n start p
          → clock p.env ≤ clock s
          → IsLater clock n start (in_env p s)
      after p s h h' = record { size = h.size; later = later_trans _ _ _ h.later h' }

      shorter : (d x y : ℕ) → x + d ≤ y → x ≤ y
      shorter d x y h = omega (arith, h)

  after_error-Ends :
      (i : ℕ) (id : Id16) (e : SlockError) (a : Attempt) (p : Replset S)
      → Ends (after_error b i id e a p)
  unfolding after_error
  after_error-Ends i id e a p = elim (Bool-cases (retryable_transport_error e && ltb 1 p.clients)) [
    | inl again ↦ rw again not_none
    | inr over ↦ rw over (not_err e)
  ]

  after_answer-Ends :
      (i : ℕ) (id : Id16) (r : CommandResult) (a : Attempt) (p : Replset S)
      → Ends (after_answer b i id r a p)
  unfolding after_answer
  after_answer-Ends i id r a p = elim (Bool-cases (lock_state_error r && ltb 1 p.clients)) [
    | inl again ↦ rw again not_none
    | inr over ↦ rw over (not_ok r)
  ]

  after_send-Ends :
      (i : ℕ) (id : Id16) (r : Result CommandResult) (a : Attempt) (p : Replset S)
      → r ≢ out_of_fuel
      → Ends (after_send b i id r a p)
  unfolding after_send
  after_send-Ends i id (ok r) a p h = after_answer-Ends i id r a p
  after_send-Ends i id (err e) a p h = after_error-Ends i id e a p
  after_send-Ends i id panic a p h = not_panic
  after_send-Ends i id out_of_fuel a p h = absurd (h refl)

  after_open-Ends :
      (i : ℕ) (c : PendingCommand) (r : Option SlockError) (a : Attempt) (p : Replset S)
      → Ends (after_open b i c r a p)
  unfolding after_open
  after_open-Ends i c (some e) a p = not_none
  after_open-Ends i c none a p =
      after_send-Ends i c.request_id _ a (in_env p (b.send_node i c.command p.env).1)
        (timed.ends i c.command p.env)

  or_go_on-Ends :
      (t : Turn S) (next : Attempt → Replset S → Turn S)
      → Ends t
      → ((a : Attempt) (p : Replset S) → Ends (next a p))
      → Ends (or_go_on t next)
  or_go_on-Ends (some r, a, p) next h h' = h
  or_go_on-Ends (none, a, p) next h h' = h' a p

  pub try_nodes_from-Ends :
      (m offset start : ℕ) (c : PendingCommand) (a : Attempt) (p : Replset S)
      → Ends (try_nodes_from b m offset start c a p)
  unfolding try_nodes_from try_node
  try_nodes_from-Ends zero offset start c a p = not_none
  try_nodes_from-Ends (suc m) offset start c a p =
      or_go_on-Ends _ _
        (after_open-Ends ((start + offset) % p.clients) c
          (b.open_node ((start + offset) % p.clients) p.env).0 a
          (in_env p (b.open_node ((start + offset) % p.clients) p.env).1))
        (λ a' p'. try_nodes_from-Ends m (suc offset) start c a' p')
