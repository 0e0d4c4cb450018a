-- ===== src/Replset/Kept.antt =====
-- blocking/replset.rs: the active node and the queue of pending commands over `send_command`.
use ruslock.Prelude.{
  ℕ, ◌<◌, ◌≡◌, refl, sym, ap, ◌∙◌, arith, some, List, [], ◌∷◌, ◌++◌, false, inl, inr, ◌==◌,
  Bool-cases,
}
use mathlib.Core.Path.{subst}
use ruslock.Error.{Result, ok, err, panic, out_of_fuel, Returns}
use ruslock.Options.{ClientOptions}
use ruslock.Protocol.Id.{Id16}
use ruslock.Protocol.Command.{Command, EncodedCommand, encode_command}
use ruslock.Replset.{
  Nodes, Replset, PendingCommand, RetryType, push_pending, update_pending, remove_pending,
  set_active_index,
}
use ruslock.Replset.Queue.{IsFresh, update_all, remove_pending-push_pending}
use ruslock.Replset.Send.{
  Sent, set_retry, finish_send, send_encoded, by_encoding, replset_send, new_pending,
}
use ruslock.Replset.Keeps.{IsKept, send_pending-keeps}

-- The active node, if there is one, is one of `n` nodes, and there are `n` clients.
pub record HasActive {S : Type 0} (n : ℕ) (p : Replset S) : Type 0 where
  pub size : p.clients ≡ n
  pub active : (i : ℕ) → p.active_index ≡ some i → i < n

-- There are `n` clients, and the queue is one that setting the retry type of the command with the id
-- can make of `queue`.
pub record IsUpdated {S : Type 0} (n : ℕ) (id : Id16) (queue : List PendingCommand) (p : Replset S)
    : Type 0 where
  pub size : p.clients ≡ n
  pub types : List RetryType
  pub updated : p.pending_commands ≡ update_all id types queue

update_all-snoc :
    (id : Id16) (ts : List RetryType) (t : RetryType) (queue : List PendingCommand)
    → update_all id (ts ++ (t ∷ [])) queue ≡ update_pending id t (update_all id ts queue)
update_all-snoc id [] t queue = refl
update_all-snoc id (u ∷ ts) t queue = update_all-snoc id ts t (update_pending id u queue)

HasActive-queue :
    {S : Type 0} (n : ℕ) (p : Replset S) (queue : List PendingCommand)
    → HasActive n p
    → HasActive n (record p { pending_commands = queue })
HasActive-queue n p queue h = record { size = h.size; active = h.active }

pub some_client : {S : Type 0} (p : Replset S) → (p.clients == 0) ≡ false → 0 < p.clients
some_client p nodes = positive p.clients nodes
  where
    positive : (m : ℕ) → (m == 0) ≡ false → 0 < m
    positive m h = ground arith

module _ {S : Type 0} (b : Nodes S) where
  HasActive-IsKept : (n : ℕ) (id : Id16) → IsKept b n id (HasActive n)
  HasActive-IsKept n id = record {
    size = λ p h. h.size;
    opens = λ i p h. record { size = h.size; active = h.active };
    sends = λ i c p h. record { size = h.size; active = h.active };
    closes = λ i p h. record { size = h.size; active = h.active };
    nows = λ p h. record { size = h.size; active = h.active };
    sleeps = λ d p h. record { size = h.size; active = h.active };
    retries = λ t p h. retries t p h;
    activates = λ i p inside h. activates i p inside h;
  }
    where
      retries : (t : RetryType) (p : Replset S) → HasActive n p → HasActive n (set_retry id t p)
      retries t p h = unfold set_retry in record { size = h.size; active = h.active }

      activates :
          (i : ℕ) (p : Replset S) → i < n → HasActive n p → HasActive n (set_active_index i p)
      activates i p inside h =
          unfold set_active_index in record { size = h.size; active = λ j eq. at_index j eq }
        where
          at_index : (j : ℕ) → some i ≡ some j → j < n
          at_index j eq = subst (λ k. k < n) (same j eq) inside
            where
              same : (k : ℕ) → some i ≡ some k → i ≡ k
              same k eq = cc

  IsUpdated-IsKept :
      (n : ℕ) (id : Id16) (queue : List PendingCommand) → IsKept b n id (IsUpdated n id queue)
  IsUpdated-IsKept n id queue = record {
    size = λ p h. h.size;
    opens = λ i p h. record { size = h.size; types = h.types; updated = h.updated };
    sends = λ i c p h. record { size = h.size; types = h.types; updated = h.updated };
    closes = λ i p h. record { size = h.size; types = h.types; updated = h.updated };
    nows = λ p h. record { size = h.size; types = h.types; updated = h.updated };
    sleeps = λ d p h. record { size = h.size; types = h.types; updated = h.updated };
    retries = λ t p h. retries t p h;
    activates = λ i p inside h. activates i p h;
  }
    where
      retries :
          (t : RetryType) (p : Replset S)
          → IsUpdated n id queue p
          → IsUpdated n id queue (set_retry id t p)
      retries t p h =
          unfold set_retry in
          record {
            size = h.size;
            types = h.types ++ (t ∷ []);
            updated = ap (update_pending id t) h.updated ∙ sym (update_all-snoc id h.types t queue);
          }

      activates :
          (i : ℕ) (p : Replset S)
          → IsUpdated n id queue p
          → IsUpdated n id queue (set_active_index i p)
      activates i p h =
          unfold set_active_index in record { size = h.size; types = h.types; updated = h.updated }

  removed :
      (n : ℕ) (c : PendingCommand) (queue : List PendingCommand) (p : Replset S)
      → IsFresh c.request_id queue
      → IsUpdated n c.request_id (push_pending c queue) p
      → remove_pending c.request_id p.pending_commands ≡ queue
  removed n c queue p fresh h =
      ap (remove_pending c.request_id) h.updated ∙ remove_pending-push_pending c h.types queue fresh

  finish_send-queue :
      (n : ℕ) (c : PendingCommand) (queue : List PendingCommand) (sent : Sent S)
      → IsFresh c.request_id queue
      → IsUpdated n c.request_id (push_pending c queue) sent.1
      → Returns (finish_send b c.request_id sent).0
      → (finish_send b c.request_id sent).1.pending_commands ≡ queue
  unfolding finish_send
  finish_send-queue n c queue (ok r, p) fresh h returned = removed n c queue p fresh h
  finish_send-queue n c queue (err e, p) fresh h returned = removed n c queue p fresh h
  finish_send-queue n c queue (panic, p) fresh h returned = absurd returned
  finish_send-queue n c queue (out_of_fuel, p) fresh h returned = absurd returned

  send_encoded-queue :
      (fuel : ℕ) (e : EncodedCommand) (command : Command) (options : ClientOptions) (p : Replset S)
      → 0 < p.clients
      → IsFresh e.request_id p.pending_commands
      → Returns (send_encoded b fuel e command options p).0
      → (send_encoded b fuel e command options p).1.pending_commands ≡ p.pending_commands
  unfolding send_encoded new_pending
  send_encoded-queue fuel e command options p some_node fresh returned =
      finish_send-queue p.clients
        (new_pending e command options.command_timeout_grace (b.now p.env).0) p.pending_commands _
        fresh
        (send_pending-keeps b (IsUpdated-IsKept p.clients e.request_id _) _ refl fuel _ _ some_node
          (record { size = refl; types = []; updated = refl }))
        returned

  finish_send-HasActive :
      (n : ℕ) (id : Id16) (sent : Sent S)
      → HasActive n sent.1
      → HasActive n (finish_send b id sent).1
  unfolding finish_send
  finish_send-HasActive n id (ok r, p) h = HasActive-queue n p _ h
  finish_send-HasActive n id (err e, p) h = HasActive-queue n p _ h
  finish_send-HasActive n id (panic, p) h = h
  finish_send-HasActive n id (out_of_fuel, p) h = h

  send_encoded-HasActive :
      (fuel : ℕ) (e : EncodedCommand) (command : Command) (options : ClientOptions) (p : Replset S)
      → (n : ℕ) → 0 < n
      → HasActive n p
      → HasActive n (send_encoded b fuel e command options p).1
  unfolding send_encoded new_pending
  send_encoded-HasActive fuel e command options p n some_node h =
      finish_send-HasActive n e.request_id _ (
        send_pending-keeps b (HasActive-IsKept n e.request_id) _ refl fuel _ _ some_node
          (record { size = h.size; active = h.active }))

  by_encoding-queue :
      (fuel : ℕ) (r : Result EncodedCommand) (command : Command) (options : ClientOptions)
      → (p : Replset S) → 0 < p.clients
      → ((e : EncodedCommand) → r ≡ ok e → IsFresh e.request_id p.pending_commands)
      → Returns (by_encoding b fuel r command options p).0
      → (by_encoding b fuel r command options p).1.pending_commands ≡ p.pending_commands
  unfolding by_encoding
  by_encoding-queue fuel (ok e) command options p some_node fresh returned =
      send_encoded-queue fuel e command options p some_node (fresh e refl) returned
  by_encoding-queue fuel (err x) command options p some_node fresh returned = refl
  by_encoding-queue fuel panic command options p some_node fresh returned = refl
  by_encoding-queue fuel out_of_fuel command options p some_node fresh returned = refl

  -- `send_command` leaves the queue of pending commands as it was, where it returns a
  -- result or an error and no command of the queue has the request id of the command.
  pub replset_send-queue :
      (fuel : ℕ) (command : Command) (options : ClientOptions) (p : Replset S)
      → ((e : EncodedCommand)
          → encode_command command ≡ ok e
          → IsFresh e.request_id p.pending_commands)
      → Returns (replset_send b fuel command options p).0
      → (replset_send b fuel command options p).1.pending_commands ≡ p.pending_commands
  unfolding replset_send
  replset_send-queue fuel command options p fresh = elim (Bool-cases (p.clients == 0)) [
    | inl no_node ↦ rw no_node (λ returned. refl)
    | inr nodes ↦ rw nodes (
        by_encoding-queue fuel (encode_command command) command options p (some_client p nodes)
          fresh)
  ]

  by_encoding-HasActive :
      (fuel : ℕ) (r : Result EncodedCommand) (command : Command) (options : ClientOptions)
      → (p : Replset S) (n : ℕ) → 0 < n
      → HasActive n p
      → HasActive n (by_encoding b fuel r command options p).1
  unfolding by_encoding
  by_encoding-HasActive fuel (ok e) command options p n some_node h =
      send_encoded-HasActive fuel e command options p n some_node h
  by_encoding-HasActive fuel (err x) command options p n some_node h = h
  by_encoding-HasActive fuel panic command options p n some_node h = h
  by_encoding-HasActive fuel out_of_fuel command options p n some_node h = h

  pub replset_send-HasActive :
      (fuel : ℕ) (command : Command) (options : ClientOptions) (p : Replset S) (n : ℕ)
      → 0 < n
      → HasActive n p
      → HasActive n (replset_send b fuel command options p).1
  unfolding replset_send
  replset_send-HasActive fuel command options p n some_node h = elim (Bool-cases (p.clients == 0)) [
    | inl no_node ↦ rw no_node h
    | inr nodes ↦ rw nodes (by_encoding-HasActive fuel _ command options p n some_node h)
  ]
