-- ===== src/Client/Handle.antt =====
-- blocking/handle.rs: `ClientHandle`.
use ruslock.Prelude.{ℕ, List, Bool}
use ruslock.Error.{Result}
use ruslock.Protocol.Id.{Id16}
use ruslock.Primitive.World.{Backend, World}
use ruslock.Primitive.Lock.{Lock}
use ruslock.Primitive.Event.{Event}
use ruslock.Primitive.GroupEvent.{GroupEvent}
use ruslock.Primitive.Locks.{
  Semaphore, ReentrantLock, ReadWriteLock, PriorityLock, MaxConcurrentFlow, TokenBucketFlow, Period,
}
use ruslock.Primitive.Tree.{TreeLock}
use ruslock.Replset.{Nodes, Replset, replset_open, replset_close, replset_ping}
use ruslock.Client.{Link, ClientBackend}
use ruslock.Client.Api.{ClientApi}
use ruslock.Client.Single
use ruslock.Client.Replicated
use ruslock.Client.Api

-- `ClientHandle`, by the states of the clients.
pub data ClientHandle (S : Type 0) : Type 0 where
  one : S → ClientHandle S
  several : Replset S → ClientHandle S

module _ {S : Type 0} where
  -- `ClientHandle::select_database`.
  unfoldable pub select_handle : ℕ → ClientHandle S → ℕ → World (ClientBackend S)
  unfolding Single.select_database Replicated.select_database
  select_handle db_id (one c) counter = Single.select_database db_id c counter
  select_handle db_id (several p) counter = Replicated.select_database db_id p counter

module _ {S : Type 0} (link : Link S) (nodes : Nodes S) (id : Id16) where
  -- `ClientHandle::open`.
  unfoldable pub open_handle : ClientHandle S → Result (Unit {0}) × ClientHandle S
  unfolding Single.open_client replset_open
  open_handle (one c) = let (r, c') = Single.open_client link c in (r, one c')
  open_handle (several p) = let (r, p') = replset_open nodes p in (r, several p')

  -- `ClientHandle::close`.
  unfoldable pub close_handle : ClientHandle S → ClientHandle S
  unfolding Single.close_client replset_close
  close_handle (one c) = one (Single.close_client link c)
  close_handle (several p) = several (replset_close nodes p)

  -- `ClientHandle::ping`, with the request id of a single client's ping.
  unfoldable pub ping_handle : ClientHandle S → Result Bool × ClientHandle S
  unfolding Single.ping_client replset_ping
  ping_handle (one c) = let (r, c') = Single.ping_client link id c in (r, one c')
  ping_handle (several p) = let (r, p') = replset_ping nodes p in (r, several p')

  -- `impl ClientApi for ClientHandle`.
  unfoldable pub handle_api : ClientApi (ClientHandle S) (ClientBackend S)
  unfolding open_handle close_handle ping_handle select_handle
  handle_api = record {
    open_client = open_handle;
    close_client = close_handle;
    ping_client = ping_handle;
    select_database = select_handle;
  }

module _ {S : Type 0} (api : ClientApi (ClientHandle S) (ClientBackend S))
    (b : Backend (ClientBackend S)) where
  unfoldable pub lock : List ℕ → ℕ → ℕ → ClientHandle S → ℕ → Lock × World (ClientBackend S)
  unfolding Api.lock
  lock key timeout expired c counter = Api.lock api b key timeout expired c counter

  unfoldable pub event :
      List ℕ → ℕ → ℕ → Bool → ClientHandle S → ℕ → Event × World (ClientBackend S)
  unfolding Api.event
  event key timeout expired default_set c counter =
      Api.event api b key timeout expired default_set c counter

  unfoldable pub group_event : List ℕ → ℕ → ℕ → ℕ → ℕ → ClientHandle S → ℕ → GroupEvent
  unfolding Api.group_event
  group_event key client_id version_id timeout expired c counter =
      Api.group_event api b key client_id version_id timeout expired c counter

  unfoldable pub semaphore : List ℕ → ℕ → ℕ → ℕ → ClientHandle S → ℕ → Semaphore
  unfolding Api.semaphore
  semaphore key count timeout expired c counter =
      Api.semaphore api b key count timeout expired c counter

  unfoldable pub reentrant_lock :
      List ℕ → ℕ → ℕ → ClientHandle S → ℕ → ReentrantLock × World (ClientBackend S)
  unfolding Api.reentrant_lock
  reentrant_lock key timeout expired c counter =
      Api.reentrant_lock api b key timeout expired c counter

  unfoldable pub read_write_lock :
      List ℕ → ℕ → ℕ → ClientHandle S → ℕ → ReadWriteLock × World (ClientBackend S)
  unfolding Api.read_write_lock
  read_write_lock key timeout expired c counter =
      Api.read_write_lock api b key timeout expired c counter

  unfoldable pub priority_lock :
      List ℕ → ℕ → ℕ → ℕ → ClientHandle S → ℕ → PriorityLock × World (ClientBackend S)
  unfolding Api.priority_lock
  priority_lock key priority timeout expired c counter =
      Api.priority_lock api b key priority timeout expired c counter

  unfoldable pub max_concurrent_flow :
      List ℕ → ℕ → ℕ → ℕ → ClientHandle S → ℕ → MaxConcurrentFlow × World (ClientBackend S)
  unfolding Api.max_concurrent_flow
  max_concurrent_flow key max timeout expired c counter =
      Api.max_concurrent_flow api b key max timeout expired c counter

  unfoldable pub token_bucket_flow :
      List ℕ → ℕ → ℕ → Period → ClientHandle S → ℕ → TokenBucketFlow × World (ClientBackend S)
  unfolding Api.token_bucket_flow
  token_bucket_flow key count timeout period c counter =
      Api.token_bucket_flow api b key count timeout period c counter

  unfoldable pub tree_lock :
      List ℕ → ℕ → ℕ → ClientHandle S → ℕ → TreeLock × World (ClientBackend S)
  unfolding Api.tree_lock
  tree_lock key timeout expired c counter = Api.tree_lock api b key timeout expired c counter
