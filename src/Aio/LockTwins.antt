-- ===== src/Aio/LockTwins.antt =====
-- aio/primitives.rs against blocking/primitives.rs: `ReentrantLock`, `Semaphore`, `ReadWriteLock`, `PriorityLock` and the flows, run to their ends.
use ruslock.Prelude.{◌≡◌, refl, Option, none, some, List}
use ruslock.Primitive.World.{Backend, World}
use ruslock.Primitive.Lock.{Lock}
use ruslock.Primitive.Locks.{
  ReentrantLock, Semaphore, ReadWriteLock, PriorityLock, MaxConcurrentFlow, TokenBucketFlow, pop,
}
use ruslock.Primitive
use ruslock.Aio.Future.{complete, await_inner}
use ruslock.Aio

module _ {S : Type 0} (b : Backend S) where
  release_read-complete :
      (x : Option (List Lock × Lock)) (p : ReadWriteLock) (w : World S)
      → pop p.read_locks ≡ x
      → complete b (Aio.Locks.release_read b (p, w)) ≡ Primitive.Locks.release_read b (p, w)
  unfolding complete await_inner Aio.Locks.release_read Primitive.Locks.release_read
      Aio.Locks.release_taken
  release_read-complete none p w h = rw (Primitive.Locks.release_read, h) refl
  release_read-complete (some (rest, l)) p w h = rw (Primitive.Locks.release_read, h) refl

  -- The results of the async and of the blocking methods of the counting locks and the flows.
  abbrev pub CountingTwins :
      (r : ReentrantLock × World S) (s : Semaphore × World S) (p : ReadWriteLock × World S)
      → (y : PriorityLock × World S) (m : MaxConcurrentFlow × World S)
        (t : TokenBucketFlow × World S)
      → Type 0
  CountingTwins r s p y m t =
      (complete b (Aio.Locks.reentrant_acquire b r) ≡ Primitive.Locks.reentrant_acquire b r)
      × (complete b (Aio.Locks.reentrant_release b r) ≡ Primitive.Locks.reentrant_release b r)
      × (complete b (Aio.Locks.semaphore_acquire b s) ≡ Primitive.Locks.semaphore_acquire b s)
      × (complete b (Aio.Locks.semaphore_release b s) ≡ Primitive.Locks.semaphore_release b s)
      × (complete b (Aio.Locks.acquire_write b p) ≡ Primitive.Locks.acquire_write b p)
      × (complete b (Aio.Locks.release_write b p) ≡ Primitive.Locks.release_write b p)
      × (complete b (Aio.Locks.acquire_read b p) ≡ Primitive.Locks.acquire_read b p)
      × (complete b (Aio.Locks.release_read b p) ≡ Primitive.Locks.release_read b p)
      × (complete b (Aio.Locks.priority_acquire b y) ≡ Primitive.Locks.priority_acquire b y)
      × (complete b (Aio.Locks.priority_release b y) ≡ Primitive.Locks.priority_release b y)
      × (complete b (Aio.Locks.flow_acquire b m) ≡ Primitive.Locks.flow_acquire b m)
      × (complete b (Aio.Locks.flow_release b m) ≡ Primitive.Locks.flow_release b m)
      × (complete b (Aio.Locks.bucket_acquire b t) ≡ Primitive.Locks.bucket_acquire b t)

  -- Every async method of `ReentrantLock`, `Semaphore`, `ReadWriteLock`, `PriorityLock`,
  -- `MaxConcurrentFlow` and `TokenBucketFlow`, run to its end with no other task in between, does what
  -- the blocking method does: the same commands, the same result, primitive and world.
  pub counting_methods-CountingTwins :
      (r : ReentrantLock × World S) (s : Semaphore × World S) (p : ReadWriteLock × World S)
      → (y : PriorityLock × World S) (m : MaxConcurrentFlow × World S)
        (t : TokenBucketFlow × World S)
      → CountingTwins r s p y m t
  unfolding complete await_inner Aio.Locks.reentrant_acquire Primitive.Locks.reentrant_acquire
      Aio.Locks.reentrant_release Primitive.Locks.reentrant_release Aio.Locks.semaphore_acquire
      Primitive.Locks.semaphore_acquire Aio.Locks.semaphore_release
      Primitive.Locks.semaphore_release Aio.Locks.acquire_write Primitive.Locks.acquire_write
      Aio.Locks.release_write Primitive.Locks.release_write Aio.Locks.acquire_read
      Primitive.Locks.acquire_read Aio.Locks.priority_acquire Primitive.Locks.priority_acquire
      Aio.Locks.priority_release Primitive.Locks.priority_release Aio.Locks.flow_acquire
      Primitive.Locks.flow_acquire Aio.Locks.flow_release Primitive.Locks.flow_release
      Aio.Locks.bucket_acquire Primitive.Locks.bucket_acquire
  counting_methods-CountingTwins r s (p, w) y m t = (
    refl,
    refl,
    refl,
    refl,
    refl,
    refl,
    refl,
    release_read-complete (pop p.read_locks) p w refl,
    refl,
    refl,
    refl,
    refl,
    refl,
  )
