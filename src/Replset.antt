-- ===== src/Replset.antt =====
-- blocking/replset.rs: choosing the active node of a replica set, and the queue of its pending
-- commands. The clients of the nodes are an interface.
pub mod Choice
pub mod Queue
pub mod Send
pub mod Timed
pub mod Deadline
pub mod Keeps
pub mod Kept
pub mod Calls
use ruslock.Prelude.{ℕ, zero, suc, Option, none, some, List, [], ◌∷◌, ◌++◌, Bool, true, false, not}
use ruslock.Prelude.{◌==◌, ltb, if◌then◌else◌, bit_and}
use ruslock.Constants.{init_type_flag_is_leader, command_result_state_error}
use ruslock.Error.{
  SlockError, Result, ok, err, panic, out_of_fuel, io, not_connected, client_closed,
}
use ruslock.Protocol.Id.{Id16, id_eq}
use ruslock.Protocol.Command.{Command}
use ruslock.Protocol.Reply.{CommandResult, init, ping, lock}

-- What a replica set reaches for: `Client::open`, where `none` is `Ok(())`, `Client::init_type`,
-- `Client::send_command`, `Client::ping` and `Client::close` of the node with an index, where `none`
-- is a new client of the address "", `Instant::now` and `thread::sleep`, in nanoseconds.
pub record Nodes (S : Type 0) : Type 0 where
  pub open_node : ℕ → S → Option SlockError × S
  pub init_type : ℕ → S → ℕ
  pub send_node : ℕ → Command → S → Result CommandResult × S
  pub ping_node : Option ℕ → S → Result Bool × S
  pub close_node : ℕ → S → S
  pub now : S → ℕ × S
  pub sleep : ℕ → S → S

pub data RetryType : Type 0 where
  origin redirected pending woken : RetryType

pub record PendingCommand : Type 0 where
  pub request_id : Id16
  pub command : Command
  pub retry_type : RetryType
  pub deadline : ℕ

-- `ReplsetClient`, with as many clients as nodes, all in the state `env`.
pub record Replset (S : Type 0) : Type 0 where
  pub env : S
  pub clients : ℕ
  pub active_index : Option ℕ
  pub pending_commands : List PendingCommand

-- The variables of `ReplsetClient::open`.
pub record Found : Type 0 where
  pub last_error : Option SlockError
  pub first_live : Option ℕ
  pub leader : Option ℕ

-- `Option::or`.
abbrev pub or_else {ℓ} : {A : Type ℓ} → Option A → Option A → Option A
or_else none y = y
or_else (some x) y = some x

abbrev pub unwrap_or {ℓ} : {A : Type ℓ} → Option A → A → A
unwrap_or none y = y
unwrap_or (some x) y = x

-- The body of the loop of `ReplsetClient::open`.
unfoldable pub note_open : ℕ → Option SlockError → ℕ → Found → Found
note_open index (some e) init_type f = record f { last_error = some e }
note_open index none init_type f = record {
  last_error = f.last_error;
  first_live = or_else f.first_live (some index);
  leader = if bit_and init_type init_type_flag_is_leader == 0 then f.leader else some index;
}

-- `lock_state_error`.
unfoldable pub lock_state_error : CommandResult → Bool
lock_state_error (init r) = false
lock_state_error (ping r) = false
lock_state_error (lock r) = r.result == command_result_state_error

-- `retryable_transport_error`.
unfoldable pub retryable_transport_error : SlockError → Bool
retryable_transport_error (io e) = true
retryable_transport_error not_connected = true
retryable_transport_error client_closed = true
retryable_transport_error e = false

-- `map_err(|_| e)`.
abbrev pub or_first_error {ℓ} : {A : Type ℓ} → SlockError → Result A → Result A
or_first_error e (ok x) = ok x
or_first_error e (err x) = err e
or_first_error e panic = panic
or_first_error e out_of_fuel = out_of_fuel

-- `push_pending_command`.
unfoldable pub push_pending : PendingCommand → List PendingCommand → List PendingCommand
push_pending p queue = queue ++ (p ∷ [])

-- `update_pending_retry_type`: of the first command with the id.
unfoldable pub update_pending : Id16 → RetryType → List PendingCommand → List PendingCommand
unfolding id_eq
update_pending id retry_type [] = []
update_pending id retry_type (p ∷ queue) =
    if id_eq p.request_id id
    then record p { retry_type = retry_type } ∷ queue
    else p ∷ update_pending id retry_type queue

-- `remove_pending_command`: of all commands with the id.
unfoldable pub remove_pending : Id16 → List PendingCommand → List PendingCommand
unfolding id_eq
remove_pending id [] = []
remove_pending id (p ∷ queue) =
    let rest = remove_pending id queue in if not (id_eq p.request_id id) then p ∷ rest else rest

module _ {S : Type 0} where
  -- `set_active_index`.
  unfoldable pub set_active_index : ℕ → Replset S → Replset S
  set_active_index index p = record p { active_index = some index }

  -- The end of `ReplsetClient::open`.
  unfoldable pub activate : Found → Replset S → Result (Unit {0}) × Replset S
  unfolding set_active_index
  activate f p = elim (or_else f.leader f.first_live) [
    | some index ↦ (ok tt, set_active_index index p)
    | none ↦ (err (unwrap_or f.last_error not_connected), p)
  ]

  -- `client`: the index of the client, or `none` for a new client of the address "".
  unfoldable pub client : Replset S → Option ℕ
  client p =
      let index = unwrap_or p.active_index 0 in if ltb index p.clients then some index else none

module _ {S : Type 0} (b : Nodes S) where
  -- The loop of `ReplsetClient::open` over the `n` clients from `index`.
  unfoldable pub open_loop : ℕ → ℕ → Found → S → Found × S
  unfolding note_open
  open_loop zero index f s = (f, s)
  open_loop (suc n) index f s =
      let (r, s') = b.open_node index s in
      open_loop n (suc index) (note_open index r (b.init_type index s') f) s'

  -- `ReplsetClient::open`.
  unfoldable pub replset_open : Replset S → Result (Unit {0}) × Replset S
  unfolding open_loop activate
  replset_open p =
      if p.clients == 0
      then (err not_connected, p)
      else (let (f, s) =
            open_loop p.clients 0 (record { last_error = none; first_live = none; leader = none })
              p.env in
          activate f (record p { env = s }))

  unfoldable pub close_loop : ℕ → ℕ → S → S
  close_loop zero index s = s
  close_loop (suc n) index s = close_loop n (suc index) (b.close_node index s)

  -- `ReplsetClient::close`.
  unfoldable pub replset_close : Replset S → Replset S
  unfolding close_loop
  replset_close p = record p { env = close_loop p.clients 0 p.env; active_index = none }

  -- The second ping of `ReplsetClient::ping`, by what opening the nodes again returned.
  unfoldable pub ping_again : SlockError → Result (Unit {0}) → Replset S → Result Bool × Replset S
  unfolding client
  ping_again e (err x) p = (err x, p)
  ping_again e panic p = (panic, p)
  ping_again e out_of_fuel p = (out_of_fuel, p)
  ping_again e (ok u) p =
      let (r, s) = b.ping_node (client p) p.env in (or_first_error e r, record p { env = s })

  -- The `match` of `ReplsetClient::ping`.
  unfoldable pub after_ping : Result Bool → Replset S → Result Bool × Replset S
  unfolding ping_again replset_open
  after_ping (ok x) p = (ok x, p)
  after_ping panic p = (panic, p)
  after_ping out_of_fuel p = (out_of_fuel, p)
  after_ping (err e) p =
      let (r, p') = replset_open p in if ltb 1 p.clients then ping_again e r p' else (err e, p)

  -- `ReplsetClient::ping`.
  unfoldable pub replset_ping : Replset S → Result Bool × Replset S
  unfolding client after_ping
  replset_ping p = let (r, s) = b.ping_node (client p) p.env in after_ping r (record p { env = s })
