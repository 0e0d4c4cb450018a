-- ===== src/Primitive/Database.antt =====
-- blocking/database.rs: `Database::new` and the factories of the primitives. A `Database` is in the
-- world of its primitives.
use ruslock.Prelude.{ℕ, List, [], Bool}
use ruslock.Primitive.World.{Backend, World}
use ruslock.Primitive.Lock.{Lock, new_lock}
use ruslock.Primitive.Event.{Event, new_event}
use ruslock.Primitive.GroupEvent.{GroupEvent, new_group_event}
use ruslock.Primitive.Locks.{
  Semaphore, ReentrantLock, ReadWriteLock, PriorityLock, MaxConcurrentFlow, TokenBucketFlow, Period,
  new_semaphore, new_reentrant, new_read_write, new_priority, new_max_concurrent, new_token_bucket,
}
use ruslock.Primitive.Tree.{TreeLock, new_tree}

module _ {S : Type 0} where
  -- `Database::new`, on a client in the state `env` of a process with the id counter `id_counter`.
  unfoldable pub new_database : S → ℕ → ℕ → World S
  new_database env id_counter db_id = record {
    env = env;
    id_counter = id_counter;
    db_id = db_id;
    timeout_flags = 0;
    expired_flags = 0;
    sent = [];
  }

  unfoldable pub database_id : World S → ℕ
  database_id w = w.db_id

module _ {S : Type 0} (b : Backend S) where
  unfoldable pub lock : List ℕ → ℕ → ℕ → World S → Lock × World S
  unfolding new_lock
  lock key timeout expired w = new_lock b key timeout expired w

  unfoldable pub event : List ℕ → ℕ → ℕ → Bool → World S → Event × World S
  unfolding new_event
  event key timeout expired default_set w = new_event b key timeout expired default_set w

  unfoldable pub group_event : List ℕ → ℕ → ℕ → ℕ → ℕ → World S → GroupEvent
  unfolding new_group_event
  group_event key client_id version_id timeout expired w =
      new_group_event b key client_id version_id timeout expired w

  unfoldable pub semaphore : List ℕ → ℕ → ℕ → ℕ → World S → Semaphore
  unfolding new_semaphore
  semaphore key count timeout expired w = new_semaphore b key count timeout expired

  unfoldable pub reentrant_lock : List ℕ → ℕ → ℕ → World S → ReentrantLock × World S
  unfolding new_reentrant
  reentrant_lock key timeout expired w = new_reentrant b key timeout expired w

  unfoldable pub read_write_lock : List ℕ → ℕ → ℕ → World S → ReadWriteLock × World S
  unfolding new_read_write
  read_write_lock key timeout expired w = new_read_write b key timeout expired w

  unfoldable pub priority_lock : List ℕ → ℕ → ℕ → ℕ → World S → PriorityLock × World S
  unfolding new_priority
  priority_lock key priority timeout expired w = new_priority b key priority timeout expired w

  unfoldable pub max_concurrent_flow : List ℕ → ℕ → ℕ → ℕ → World S → MaxConcurrentFlow × World S
  unfolding new_max_concurrent
  max_concurrent_flow key max timeout expired w = new_max_concurrent b key max timeout expired w

  unfoldable pub token_bucket_flow : List ℕ → ℕ → ℕ → Period → World S → TokenBucketFlow × World S
  unfolding new_token_bucket
  token_bucket_flow key count timeout period w = new_token_bucket b key count timeout period w

  unfoldable pub tree_lock : List ℕ → ℕ → ℕ → World S → TreeLock × World S
  unfolding new_tree
  tree_lock key timeout expired w = new_tree b key timeout expired w
