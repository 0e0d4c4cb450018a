-- ===== src/Aio/Locks.antt =====
-- aio/primitives.rs: the async methods of `ReentrantLock`, `Semaphore`, `ReadWriteLock`,
-- `PriorityLock`, `MaxConcurrentFlow` and `TokenBucketFlow`.
use ruslock.Prelude.{List, Option, none, some}
use ruslock.Error.{err, lock_data, no_read_lock}
use ruslock.Protocol.Id.{zero_id}
use ruslock.Protocol.Reply.{LockCommandResult}
use ruslock.Primitive.World.{Backend}
use ruslock.Primitive.Lock.{Lock, set_count, with_lock_id, new_lock}
use ruslock.Primitive.Locks.{
  Semaphore, ReentrantLock, ReadWriteLock, PriorityLock, MaxConcurrentFlow, TokenBucketFlow, pop,
  keep_reader,
}
use ruslock.Aio.Future.{ready, Async, await_inner}
use ruslock.Aio.Lock.{acquire, release, release_head}

module _ {S : Type 0} (b : Backend S) where
  unfoldable pub reentrant_acquire : Async ReentrantLock S LockCommandResult
  unfolding acquire
  reentrant_acquire (p, w) =
      await_inner (λ l. record { lock = l }) (acquire b (p.lock, w))
        (λ r l w'. ready r (record { lock = l }) w')

  unfoldable pub reentrant_release : Async ReentrantLock S LockCommandResult
  unfolding release
  reentrant_release (p, w) =
      await_inner (λ l. record { lock = l }) (release b (p.lock, w))
        (λ r l w'. ready r (record { lock = l }) w')

  unfoldable pub semaphore_acquire : Async Semaphore S LockCommandResult
  unfolding new_lock set_count acquire
  semaphore_acquire (p, w) =
      let (l, w1) = new_lock b p.key p.timeout p.expired w in
      await_inner (λ l'. p) (acquire b (set_count l p.count, w1)) (λ r l' w2. ready r p w2)

  unfoldable pub semaphore_release : Async Semaphore S (Unit {0})
  unfolding with_lock_id release_head
  semaphore_release (p, w) =
      let l = with_lock_id b p.key zero_id p.timeout p.expired p.count 0 w in
      await_inner (λ l'. p) (release_head b none (l, w)) (λ r l' w'. ready r p w')

  unfoldable pub acquire_write : Async ReadWriteLock S LockCommandResult
  unfolding acquire
  acquire_write (p, w) =
      await_inner (λ l. record p { write_lock = l }) (acquire b (p.write_lock, w))
        (λ r l w'. ready r (record p { write_lock = l }) w')

  unfoldable pub release_write : Async ReadWriteLock S LockCommandResult
  unfolding release
  release_write (p, w) =
      await_inner (λ l. record p { write_lock = l }) (release b (p.write_lock, w))
        (λ r l w'. ready r (record p { write_lock = l }) w')

  unfoldable pub acquire_read : Async ReadWriteLock S LockCommandResult
  unfolding new_lock set_count acquire keep_reader
  acquire_read (p, w) =
      let (l, w1) = new_lock b p.key p.timeout p.expired w in
      await_inner (λ l'. p) (acquire b (set_count l 0xffff, w1))
        (λ r l' w2. ready r (keep_reader r l' p) w2)

  -- The reader that `release_read` has taken from the readers, released.
  unfoldable pub release_taken : Option (List Lock × Lock) → Async ReadWriteLock S LockCommandResult
  unfolding release
  release_taken none (p, w) = ready (err (lock_data no_read_lock)) p w
  release_taken (some (rest, l)) (p, w) =
      await_inner (λ l'. record p { read_locks = rest }) (release b (l, w))
        (λ r l' w'. ready r (record p { read_locks = rest }) w')

  unfoldable pub release_read : Async ReadWriteLock S LockCommandResult
  unfolding pop release_taken
  release_read (p, w) = release_taken (pop p.read_locks) (p, w)

  unfoldable pub priority_acquire : Async PriorityLock S LockCommandResult
  unfolding acquire
  priority_acquire (p, w) =
      await_inner (λ l. record p { lock = l }) (acquire b (p.lock, w))
        (λ r l w'. ready r (record p { lock = l }) w')

  unfoldable pub priority_release : Async PriorityLock S LockCommandResult
  unfolding release
  priority_release (p, w) =
      await_inner (λ l. record p { lock = l }) (release b (p.lock, w))
        (λ r l w'. ready r (record p { lock = l }) w')

  unfoldable pub flow_acquire : Async MaxConcurrentFlow S LockCommandResult
  unfolding acquire
  flow_acquire (p, w) =
      await_inner (λ l. record { lock = l }) (acquire b (p.lock, w))
        (λ r l w'. ready r (record { lock = l }) w')

  unfoldable pub flow_release : Async MaxConcurrentFlow S LockCommandResult
  unfolding release
  flow_release (p, w) =
      await_inner (λ l. record { lock = l }) (release b (p.lock, w))
        (λ r l w'. ready r (record { lock = l }) w')

  unfoldable pub bucket_acquire : Async TokenBucketFlow S LockCommandResult
  unfolding acquire
  bucket_acquire (p, w) =
      await_inner (λ l. record { lock = l }) (acquire b (p.lock, w))
        (λ r l w'. ready r (record { lock = l }) w')
