-- ===== src/Replset/Send.antt =====
-- blocking/replset.rs: `send_command`, with the rounds over the nodes until one answers or the
-- deadline has passed.
use ruslock.Prelude.{
  ℕ, zero, suc, ◌+◌, ◌-◌, ◌*◌, ◌%◌, Option, none, some, Bool, true, false, ◌==◌, ltb, leb, ◌&&◌,
  if◌then◌else◌,
}
use Prim.Native.Nat.{min}
use ruslock.Error.{SlockError, Result, ok, err, panic, out_of_fuel, not_connected}
use ruslock.Options.{ClientOptions}
use ruslock.Protocol.Id.{Id16}
use ruslock.Protocol.Command.{Command, EncodedCommand, encode_command}
use ruslock.Protocol.Reply.{CommandResult}
use ruslock.Replset.{
  Nodes, Replset, PendingCommand, RetryType, origin, redirected, pending, woken, unwrap_or,
  lock_state_error, retryable_transport_error, push_pending, update_pending, remove_pending,
  set_active_index,
}

-- `REPLSET_RETRY_INTERVAL`.
abbrev pub replset_retry_interval : ℕ
replset_retry_interval = 25000000

-- The variables of `send_pending_command`, without those that are set anew before they are read.
pub record Attempt : Type 0 where
  pub last_error : Option SlockError
  pub last_state_error : Option CommandResult

-- `PendingCommand::new` behind the encoding.
unfoldable pub new_pending : EncodedCommand → Command → ℕ → ℕ → PendingCommand
new_pending e command grace now = record {
  request_id = e.request_id;
  command = command;
  retry_type = origin;
  deadline = now + (e.timeout + grace) * 1000000;
}

-- A result that the source returns, or `none` where it goes on.
abbrev pub Turn : Type 0 → Type 0
Turn S = Option (Result CommandResult) × Attempt × Replset S

-- What `send_pending_command` returns, and the replica set behind it.
abbrev pub Sent : Type 0 → Type 0
Sent S = Result CommandResult × Replset S

module _ {S : Type 0} where
  -- `pending.retry_type = t; self.update_pending_retry_type(..)`.
  unfoldable pub set_retry : Id16 → RetryType → Replset S → Replset S
  unfolding update_pending
  set_retry id t p = record p { pending_commands = update_pending id t p.pending_commands }

  abbrev pub in_env : Replset S → S → Replset S
  in_env p s = record p { env = s }

  abbrev pub or_go_on : Turn S → (Attempt → Replset S → Turn S) → Turn S
  or_go_on (some result, a, p) next = (some result, a, p)
  or_go_on (none, a, p) next = next a p

module _ {S : Type 0} (b : Nodes S) where
  -- An error of a node.
  unfoldable pub after_error : ℕ → Id16 → SlockError → Attempt → Replset S → Turn S
  unfolding retryable_transport_error set_retry
  after_error index id e a p =
      if retryable_transport_error e && ltb 1 p.clients
      then (
        none,
        record a { last_error = some e },
        set_retry id redirected (in_env p (b.close_node index p.env)),
      )
      else (some (err e), a, p)

  -- An answer of a node.
  unfoldable pub after_answer : ℕ → Id16 → CommandResult → Attempt → Replset S → Turn S
  unfolding lock_state_error set_retry set_active_index
  after_answer index id r a p =
      if lock_state_error r && ltb 1 p.clients
      then (none, record a { last_state_error = some r }, set_retry id redirected p)
      else (some (ok r), a, set_active_index index p)

  -- The `match` on `client.send_command`.
  unfoldable pub after_send : ℕ → Id16 → Result CommandResult → Attempt → Replset S → Turn S
  unfolding after_answer after_error
  after_send index id (ok r) a p = after_answer index id r a p
  after_send index id (err e) a p = after_error index id e a p
  after_send index id panic a p = (some panic, a, p)
  after_send index id out_of_fuel a p = (some out_of_fuel, a, p)

  -- The body of the `for` behind `client.open`.
  unfoldable pub after_open : ℕ → PendingCommand → Option SlockError → Attempt → Replset S → Turn S
  unfolding after_send
  after_open index c (some e) a p = (none, record a { last_error = some e }, p)
  after_open index c none a p =
      let (r, s) = b.send_node index c.command p.env in
      after_send index c.request_id r a (in_env p s)

  -- The body of the `for`.
  unfoldable pub try_node : ℕ → PendingCommand → Attempt → Replset S → Turn S
  unfolding after_open
  try_node index c a p = let (r, s) = b.open_node index p.env in after_open index c r a (in_env p s)

  -- The `for`, with `n` nodes left from `offset`.
  unfoldable pub try_nodes_from : ℕ → ℕ → ℕ → PendingCommand → Attempt → Replset S → Turn S
  unfolding try_node
  try_nodes_from zero offset start c a p = (none, a, p)
  try_nodes_from (suc n) offset start c a p =
      or_go_on (try_node ((start + offset) % p.clients) c a p)
        (λ a' p'. try_nodes_from n (suc offset) start c a' p')

  -- One round of the `loop`, up to the look at the clock.
  unfoldable pub try_round : PendingCommand → Attempt → Replset S → Turn S
  unfolding try_nodes_from
  try_round c a p =
      try_nodes_from p.clients 0 (unwrap_or p.active_index 0) c
        (record a { last_state_error = none }) p

  -- The rest of the round: the sleep.
  unfoldable pub rest : PendingCommand → Replset S → Replset S
  unfolding set_retry
  rest c p =
      let p1 = set_retry c.request_id pending p in
      let (t, s) = b.now p1.env in
      set_retry c.request_id woken
        (in_env p1 (b.sleep (min (c.deadline - t) replset_retry_interval) s))

  -- The look at the clock and what follows, by whether the deadline has passed.
  unfoldable pub by_deadline :
      Bool → S → PendingCommand → Attempt → Replset S → (Attempt → Replset S → Sent S) → Sent S
  unfolding rest
  by_deadline true s c a p again = (err (unwrap_or a.last_error not_connected), in_env p s)
  by_deadline false s c a p again = again a (rest c (in_env p s))

  -- The end of a round, by the last state error.
  unfoldable pub by_state_error :
      Option CommandResult
      → PendingCommand
      → Attempt
      → Replset S
      → (Attempt → Replset S → Sent S)
      → Sent S
  unfolding by_deadline
  by_state_error (some result) c a p again = (ok result, p)
  by_state_error none c a p again =
      let (t, s) = b.now p.env in by_deadline (leb c.deadline t) s c a p again

  -- The end of a round, by what its nodes made of it.
  unfoldable pub after_round : PendingCommand → Turn S → (Attempt → Replset S → Sent S) → Sent S
  unfolding by_state_error
  after_round c (some result, a, p) again = (result, p)
  after_round c (none, a, p) again = by_state_error a.last_state_error c a p again

  -- `send_pending_command`, in at most `fuel` rounds.
  unfoldable pub send_pending : ℕ → PendingCommand → Attempt → Replset S → Sent S
  unfolding try_round after_round
  send_pending zero c a p = (out_of_fuel, p)
  send_pending (suc fuel) c a p =
      after_round c (try_round c a p) (λ a' p'. send_pending fuel c a' p')

  -- The end of `send_command`, by how `send_pending_command` ended: the command is removed where it
  -- returned, and a panic unwinds past the removal.
  unfoldable pub finish_send : Id16 → Sent S → Sent S
  unfolding remove_pending
  finish_send id (ok r, p) =
      (ok r, record p { pending_commands = remove_pending id p.pending_commands })
  finish_send id (err e, p) =
      (err e, record p { pending_commands = remove_pending id p.pending_commands })
  finish_send id (panic, p) = (panic, p)
  finish_send id (out_of_fuel, p) = (out_of_fuel, p)

  -- `send_command` behind the encoding.
  unfoldable pub send_encoded : ℕ → EncodedCommand → Command → ClientOptions → Replset S → Sent S
  unfolding new_pending push_pending send_pending finish_send
  send_encoded fuel e command options p =
      let (t, s) = b.now p.env in
      let c = new_pending e command options.command_timeout_grace t in
      finish_send c.request_id (
        send_pending fuel c (record { last_error = none; last_state_error = none })
          (record p { env = s; pending_commands = push_pending c p.pending_commands }))

  -- `send_command` behind the look at the clients, by what the encoding returned.
  unfoldable pub by_encoding :
      ℕ → Result EncodedCommand → Command → ClientOptions → Replset S → Sent S
  unfolding send_encoded
  by_encoding fuel (ok e) command options p = send_encoded fuel e command options p
  by_encoding fuel (err x) command options p = (err x, p)
  by_encoding fuel panic command options p = (panic, p)
  by_encoding fuel out_of_fuel command options p = (out_of_fuel, p)

  -- `send_command`.
  unfoldable pub replset_send : ℕ → Command → ClientOptions → Replset S → Sent S
  unfolding by_encoding encode_command
  replset_send fuel command options p =
      if p.clients == 0
      then (err not_connected, p)
      else by_encoding fuel (encode_command command) command options p
