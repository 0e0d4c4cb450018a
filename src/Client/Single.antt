-- ===== src/Client/Single.antt =====
-- blocking/client.rs: `Client`.
use ruslock.Prelude.{ℕ, List, Bool, ◌==◌}
use ruslock.Error.{Result, ok, err, panic, out_of_fuel}
use ruslock.Constants.{command_result_succed}
use ruslock.Protocol.Id.{Id16}
use ruslock.Protocol.Command.{Command}
use ruslock.Protocol.Reply.{CommandResult, result_code}
use ruslock.Primitive.World.{Backend, World}
use ruslock.Primitive.Database.{new_database}
use ruslock.Primitive.Lock.{Lock}
use ruslock.Primitive.Event.{Event}
use ruslock.Primitive.GroupEvent.{GroupEvent}
use ruslock.Primitive.Locks.{
  Semaphore, ReentrantLock, ReadWriteLock, PriorityLock, MaxConcurrentFlow, TokenBucketFlow, Period,
}
use ruslock.Primitive.Tree.{TreeLock}
use ruslock.Primitive
use ruslock.Client.{Link, ClientBackend, single}

-- The `match` of `Client::ping`.
unfoldable pub ping_result : Result CommandResult → Result Bool
unfolding result_code
ping_result (ok r) = ok (result_code r == command_result_succed)
ping_result (err e) = err e
ping_result panic = panic
ping_result out_of_fuel = out_of_fuel

module _ {S : Type 0} where
  -- `Client::select_database`.
  unfoldable pub select_database : ℕ → S → ℕ → World (ClientBackend S)
  unfolding new_database
  select_database db_id c counter = new_database (single c) counter db_id

module _ {S : Type 0} (link : Link S) where
  -- `Client::open`.
  unfoldable pub open_client : S → Result (Unit {0}) × S
  open_client c = link.connect c

  -- `Client::close`.
  unfoldable pub close_client : S → S
  close_client c = link.disconnect c

  -- `Client::pending_len`.
  unfoldable pub pending_len : S → ℕ
  pending_len c = link.pending_len c

  -- `Client::send_command`.
  unfoldable pub send_client : Command → S → Result CommandResult × S
  send_client command c = link.send command c

  -- `Client::ping`, with the request id of the ping.
  unfoldable pub ping_client : Id16 → S → Result Bool × S
  unfolding send_client ping_result
  ping_client id c =
      let (r, c') = send_client (Command.ping (record { request_id = id })) c in (ping_result r, c')

module _ {S : Type 0} (b : Backend (ClientBackend S)) where
  unfoldable pub lock : List ℕ → ℕ → ℕ → S → ℕ → Lock × World (ClientBackend S)
  unfolding Primitive.Database.lock select_database
  lock key timeout expired c counter =
      Primitive.Database.lock b key timeout expired (select_database 0 c counter)

  unfoldable pub event : List ℕ → ℕ → ℕ → Bool → S → ℕ → Event × World (ClientBackend S)
  unfolding Primitive.Database.event select_database
  event key timeout expired default_set c counter =
      Primitive.Database.event b key timeout expired default_set (select_database 0 c counter)

  unfoldable pub group_event : List ℕ → ℕ → ℕ → ℕ → ℕ → S → ℕ → GroupEvent
  unfolding Primitive.Database.group_event select_database
  group_event key client_id version_id timeout expired c counter =
      Primitive.Database.group_event b key client_id version_id timeout expired
        (select_database 0 c counter)

  unfoldable pub semaphore : List ℕ → ℕ → ℕ → ℕ → S → ℕ → Semaphore
  unfolding Primitive.Database.semaphore select_database
  semaphore key count timeout expired c counter =
      Primitive.Database.semaphore b key count timeout expired (select_database 0 c counter)

  unfoldable pub reentrant_lock : List ℕ → ℕ → ℕ → S → ℕ → ReentrantLock × World (ClientBackend S)
  unfolding Primitive.Database.reentrant_lock select_database
  reentrant_lock key timeout expired c counter =
      Primitive.Database.reentrant_lock b key timeout expired (select_database 0 c counter)

  unfoldable pub read_write_lock : List ℕ → ℕ → ℕ → S → ℕ → ReadWriteLock × World (ClientBackend S)
  unfolding Primitive.Database.read_write_lock select_database
  read_write_lock key timeout expired c counter =
      Primitive.Database.read_write_lock b key timeout expired (select_database 0 c counter)

  unfoldable pub priority_lock : List ℕ → ℕ → ℕ → ℕ → S → ℕ → PriorityLock × World (ClientBackend S)
  unfolding Primitive.Database.priority_lock select_database
  priority_lock key priority timeout expired c counter =
      Primitive.Database.priority_lock b key priority timeout expired (select_database 0 c counter)

  unfoldable pub max_concurrent_flow :
      List ℕ → ℕ → ℕ → ℕ → S → ℕ → MaxConcurrentFlow × World (ClientBackend S)
  unfolding Primitive.Database.max_concurrent_flow select_database
  max_concurrent_flow key max timeout expired c counter =
      Primitive.Database.max_concurrent_flow b key max timeout expired (select_database 0 c counter)

  unfoldable pub token_bucket_flow :
      List ℕ → ℕ → ℕ → Period → S → ℕ → TokenBucketFlow × World (ClientBackend S)
  unfolding Primitive.Database.token_bucket_flow select_database
  token_bucket_flow key count timeout period c counter =
      Primitive.Database.token_bucket_flow b key count timeout period (select_database 0 c counter)

  unfoldable pub tree_lock : List ℕ → ℕ → ℕ → S → ℕ → TreeLock × World (ClientBackend S)
  unfolding Primitive.Database.tree_lock select_database
  tree_lock key timeout expired c counter =
      Primitive.Database.tree_lock b key timeout expired (select_database 0 c counter)
