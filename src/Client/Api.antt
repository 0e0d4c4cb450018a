-- ===== src/Client/Api.antt =====
-- blocking/api.rs: the trait `ClientApi`, with its default methods.
use ruslock.Prelude.{ℕ, List, Bool}
use ruslock.Error.{Result}
use ruslock.Primitive.World.{Backend, World}
use ruslock.Primitive.Database.{new_database}
use ruslock.Primitive.Lock.{Lock}
use ruslock.Primitive.Event.{Event}
use ruslock.Primitive.GroupEvent.{GroupEvent}
use ruslock.Primitive.Locks.{
  Semaphore, ReentrantLock, ReadWriteLock, PriorityLock, MaxConcurrentFlow, TokenBucketFlow, Period,
}
use ruslock.Primitive.Tree.{TreeLock}
use ruslock.Primitive

-- `ClientApi` of a type `C` of clients. A database is on a client and in a process with the id counter
-- of the last argument.
pub record ClientApi (C B : Type 0) : Type 0 where
  pub open_client : C → Result (Unit {0}) × C
  pub close_client : C → C
  pub ping_client : C → Result Bool × C
  pub select_database : ℕ → C → ℕ → World B

module _ {C B : Type 0} (api : ClientApi C B) (b : Backend B) where
  unfoldable pub lock : List ℕ → ℕ → ℕ → C → ℕ → Lock × World B
  unfolding Primitive.Database.lock
  lock key timeout expired c counter =
      Primitive.Database.lock b key timeout expired (api.select_database 0 c counter)

  unfoldable pub event : List ℕ → ℕ → ℕ → Bool → C → ℕ → Event × World B
  unfolding Primitive.Database.event
  event key timeout expired default_set c counter =
      Primitive.Database.event b key timeout expired default_set (api.select_database 0 c counter)

  unfoldable pub group_event : List ℕ → ℕ → ℕ → ℕ → ℕ → C → ℕ → GroupEvent
  unfolding Primitive.Database.group_event
  group_event key client_id version_id timeout expired c counter =
      Primitive.Database.group_event b key client_id version_id timeout expired
        (api.select_database 0 c counter)

  unfoldable pub semaphore : List ℕ → ℕ → ℕ → ℕ → C → ℕ → Semaphore
  unfolding Primitive.Database.semaphore
  semaphore key count timeout expired c counter =
      Primitive.Database.semaphore b key count timeout expired (api.select_database 0 c counter)

  unfoldable pub reentrant_lock : List ℕ → ℕ → ℕ → C → ℕ → ReentrantLock × World B
  unfolding Primitive.Database.reentrant_lock
  reentrant_lock key timeout expired c counter =
      Primitive.Database.reentrant_lock b key timeout expired (api.select_database 0 c counter)

  unfoldable pub read_write_lock : List ℕ → ℕ → ℕ → C → ℕ → ReadWriteLock × World B
  unfolding Primitive.Database.read_write_lock
  read_write_lock key timeout expired c counter =
      Primitive.Database.read_write_lock b key timeout expired (api.select_database 0 c counter)

  unfoldable pub priority_lock : List ℕ → ℕ → ℕ → ℕ → C → ℕ → PriorityLock × World B
  unfolding Primitive.Database.priority_lock
  priority_lock key priority timeout expired c counter =
      Primitive.Database.priority_lock b key priority timeout expired
        (api.select_database 0 c counter)

  unfoldable pub max_concurrent_flow : List ℕ → ℕ → ℕ → ℕ → C → ℕ → MaxConcurrentFlow × World B
  unfolding Primitive.Database.max_concurrent_flow
  max_concurrent_flow key max timeout expired c counter =
      Primitive.Database.max_concurrent_flow b key max timeout expired
        (api.select_database 0 c counter)

  unfoldable pub token_bucket_flow : List ℕ → ℕ → ℕ → Period → C → ℕ → TokenBucketFlow × World B
  unfolding Primitive.Database.token_bucket_flow
  token_bucket_flow key count timeout period c counter =
      Primitive.Database.token_bucket_flow b key count timeout period
        (api.select_database 0 c counter)

  unfoldable pub tree_lock : List ℕ → ℕ → ℕ → C → ℕ → TreeLock × World B
  unfolding Primitive.Database.tree_lock
  tree_lock key timeout expired c counter =
      Primitive.Database.tree_lock b key timeout expired (api.select_database 0 c counter)
