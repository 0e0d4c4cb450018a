-- ===== src/Replset/Deadline.antt =====
-- blocking/replset.rs: the loop of `send_pending_command` ends by its deadline.
use ruslock.Prelude.{
  ℕ, zero, suc, ◌+◌, ◌-◌, ◌*◌, ◌≤◌, ◌<◌, ◌≡◌, ◌≢◌, refl, ap, arith, Option, none, some, Bool, true,
  false, leb, Bool-cases, inl, inr, ◌==◌,
}
use Prim.Native.Nat.{min}
use ruslock.Error.{ok, err, panic, out_of_fuel}
use ruslock.Options.{ClientOptions}
use ruslock.Protocol.Id.{Id16}
use ruslock.Protocol.Command.{Command, EncodedCommand, encode_command}
use ruslock.Protocol.Reply.{CommandResult}
use ruslock.Replset.{Nodes, Replset, PendingCommand, push_pending}
use ruslock.Replset.Send.{
  Attempt, Turn, Sent, set_retry, in_env, try_round, rest, by_deadline, by_state_error, after_round,
  send_pending, finish_send, send_encoded, by_encoding, replset_send, new_pending,
  replset_retry_interval,
}
use ruslock.Replset.Keeps.{try_round-keeps}
use ruslock.Replset.Kept.{some_client}
use ruslock.Replset.Timed.{
  IsTimed, IsLater, IsLater-IsKept, Ends, Returns, later_trans, try_nodes_from-Ends,
}

module _ {S : Type 0} (b : Nodes S) {clock : S → ℕ} (timed : IsTimed b clock) where
  -- How far the sleep gets: to the deadline, or a whole interval.
  rest-later :
      (c : PendingCommand) (p : Replset S)
      → min (c.deadline - (clock p.env)) replset_retry_interval + clock p.env
        ≤ clock (rest b c p).env
  unfolding rest set_retry
  rest-later c p =
      progress c.deadline (clock p.env) _ _ (timed.reads p.env)
        (timed.sleeps (min (c.deadline - (b.now p.env).0) replset_retry_interval) (b.now p.env).1)
        (timed.passes p.env)
    where
      progress :
          (d x t y : ℕ) {z : ℕ}
          → x ≤ t
          → y + min (d - t) 25000000 ≤ z
          → t ≤ y
          → min (d - x) 25000000 + x ≤ z
      progress d x t y {z} h h' h'' = omega (arith, h, h', h'')

  by_state_error-Returns :
      (e : Option CommandResult) (c : PendingCommand) (a : Attempt) (p : Replset S)
      → (again : Attempt → Replset S → Sent S)
      → ((a' : Attempt) (s : S)
          → clock p.env ≤ clock s
          → clock p.env < c.deadline
          → Returns (again a' (rest b c (in_env p s))))
      → Returns (by_state_error b e c a p again)
  unfolding by_state_error
  by_state_error-Returns (some r) c a p again h = λ e. cc
  by_state_error-Returns none c a p again h = by_time (leb c.deadline (b.now p.env).0) refl
    where
      early : (d x t : ℕ) → x ≤ t → leb d t ≡ false → x < d
      early d x t h e = ground arith

      by_time :
          (past : Bool)
          → leb c.deadline (b.now p.env).0 ≡ past
          → Returns (by_deadline b past (b.now p.env).1 c a p again)
      by_time true e = unfold by_deadline in (λ x. cc)
      by_time false e =
          unfold by_deadline in
          h a _ (later_trans _ _ _ (timed.reads p.env) (timed.passes p.env))
            (early _ _ _ (timed.reads p.env) e)

  after_round-Returns :
      (t : Turn S) (c : PendingCommand) (again : Attempt → Replset S → Sent S)
      → Ends t
      → ((a' : Attempt) (s : S)
          → clock t.2.env ≤ clock s
          → clock t.2.env < c.deadline
          → Returns (again a' (rest b c (in_env t.2 s))))
      → Returns (after_round b c t again)
  unfolding after_round
  after_round-Returns (some r, a, p) c again h h' = λ e. h (ap some e)
  after_round-Returns (none, a, p) c again h h' =
      by_state_error-Returns a.last_state_error c a p again h'

  try_round-IsLater :
      (n : ℕ) (c : PendingCommand) (a : Attempt) (p : Replset S)
      → 0 < n
      → p.clients ≡ n
      → IsLater clock n (clock p.env) (try_round b c a p).2
  try_round-IsLater n c a p some_node size =
      try_round-keeps b (IsLater-IsKept b timed n (clock p.env) c.request_id) c refl a p some_node
        (record { size = size; later = ≤-refl (clock p.env) })
    where
      ≤-refl : (x : ℕ) → x ≤ x
      ≤-refl x = omega arith

  rest-size :
      (n : ℕ) (c : PendingCommand) (p : Replset S) → p.clients ≡ n → (rest b c p).clients ≡ n
  unfolding rest set_retry
  rest-size n c p size = size

  try_round-Ends : (c : PendingCommand) (a : Attempt) (p : Replset S) → Ends (try_round b c a p)
  unfolding try_round
  try_round-Ends c a p = try_nodes_from-Ends b timed _ _ _ _ _ _

  too_late : (d x y : ℕ) → d ≤ x + zero * 25000000 → x ≤ y → y < d → ⊥
  too_late d x y h h' h'' = omega (arith, h, h', h'')

  reach :
      (d x k y z w : ℕ)
      → min (d - w) 25000000 + w ≤ z
      → y ≤ w
      → x ≤ y
      → d ≤ x + suc k * 25000000
      → d ≤ z + k * 25000000
  reach d x k y z w h h' h'' within = omega (arith, h, h', h'', within)

  -- `send_pending_command` returns after at most one round for each retry interval up to the
  -- deadline, and one more.
  send_pending-Returns :
      (fuel n : ℕ) (c : PendingCommand) (a : Attempt) (p : Replset S)
      → 0 < n
      → p.clients ≡ n
      → c.deadline ≤ clock p.env + fuel * 25000000
      → Returns (send_pending b (suc fuel) c a p)
  unfolding send_pending
  send_pending-Returns zero n c a p some_node size enough =
      after_round-Returns (try_round b c a p) c _ (try_round-Ends c a p) (λ a' s h h'.
        absurd (too_late _ _ _ enough (try_round-IsLater n c a p some_node size).later h'))
  send_pending-Returns (suc fuel) n c a p some_node size enough =
      let kept = try_round-IsLater n c a p some_node size in
      after_round-Returns (try_round b c a p) c _ (try_round-Ends c a p) (λ a' s h h'.
        let p' : Replset S = in_env (try_round b c a p).2 s in
        send_pending-Returns fuel n c a' (rest b c p') some_node (rest-size n c p' kept.size)
          (reach c.deadline (clock p.env) fuel _ _ _ (rest-later c p') h kept.later enough))

  finish_send-Returns : (id : Id16) (sent : Sent S) → Returns sent → Returns (finish_send b id sent)
  unfolding finish_send
  finish_send-Returns id (ok r, p) h = h
  finish_send-Returns id (err e, p) h = h
  finish_send-Returns id (panic, p) h = h
  finish_send-Returns id (out_of_fuel, p) h = h

  send_encoded-Returns :
      (fuel : ℕ) (e : EncodedCommand) (command : Command) (options : ClientOptions) (p : Replset S)
      → 0 < p.clients
      → e.timeout + options.command_timeout_grace ≤ fuel * 25
      → Returns (send_encoded b (suc fuel) e command options p)
  unfolding send_encoded new_pending
  send_encoded-Returns fuel e command options p some_node enough =
      finish_send-Returns e.request_id _ (
        send_pending-Returns fuel p.clients
          (new_pending e command options.command_timeout_grace (b.now p.env).0)
          (record { last_error = none; last_state_error = none })
          (record p {
            env = (b.now p.env).1;
            pending_commands =
                push_pending (new_pending e command options.command_timeout_grace (b.now p.env).0)
                  p.pending_commands;
          })
          some_node refl (in_time _ _ _ fuel (timed.passes p.env) enough))
    where
      in_time : (t x g k : ℕ) → t ≤ x → g ≤ k * 25 → t + g * 1000000 ≤ x + k * 25000000
      in_time t x g k h h' = omega (arith, h, h')

  -- `send_command` returns, where the clients of the nodes do, no step goes back in time and a sleep
  -- takes at least its time: a command that can be encoded, with a timeout and a grace of at most
  -- `fuel` times 25 milliseconds, needs at most one round over the nodes more than `fuel`.
  pub replset_send-Returns :
      (fuel : ℕ) (command : Command) (options : ClientOptions) (p : Replset S) (e : EncodedCommand)
      → encode_command command ≡ ok e
      → e.timeout + options.command_timeout_grace ≤ fuel * 25
      → (replset_send b (suc fuel) command options p).0 ≢ out_of_fuel
  unfolding replset_send by_encoding
  replset_send-Returns fuel command options p e encoded enough =
      elim (Bool-cases (p.clients == 0)) [
        | inl no_node ↦ rw no_node (λ x. cc)
        | inr nodes ↦
            rw (nodes, encoded)
              (send_encoded-Returns fuel e command options p (some_client p nodes) enough)
      ]
