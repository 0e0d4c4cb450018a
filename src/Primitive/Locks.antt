-- ===== src/Primitive/Locks.antt =====
-- blocking/primitives.rs: `ReentrantLock`, `Semaphore`, `ReadWriteLock`, `PriorityLock`,
-- `MaxConcurrentFlow` and `TokenBucketFlow`.
pub mod Readers
pub mod Capacity
use ruslock.Prelude.{ℕ, ◌-◌, List, [], ◌∷◌, ◌++◌, Option, none, some, Bool, if◌then◌else◌}
use Prim.Native.Nat.{max}
use ruslock.Constants.{timeout_flag_rcount_is_priority, expried_flag_millisecond_time}
use ruslock.Time.{merge_flags}
use ruslock.Error.{Result, ok, err, panic, out_of_fuel, lock_data, no_read_lock}
use ruslock.Protocol.Id.{zero_id}
use ruslock.Protocol.Reply.{LockCommandResult}
use ruslock.Primitive.World.{Backend, World, Act}
use ruslock.Primitive.Lock.{
  Lock, set_count, set_r_count, with_lock_id, new_lock, acquire, release, release_head,
}

pub record ReentrantLock : Type 0 where
  pub lock : Lock

-- The database is in the world.
pub record Semaphore : Type 0 where
  pub key : List ℕ
  pub count : ℕ
  pub timeout : ℕ
  pub expired : ℕ

pub record ReadWriteLock : Type 0 where
  pub key : List ℕ
  pub timeout : ℕ
  pub expired : ℕ
  pub write_lock : Lock
  pub read_locks : List Lock

pub record PriorityLock : Type 0 where
  pub lock : Lock
  pub priority : ℕ

pub record MaxConcurrentFlow : Type 0 where
  pub lock : Lock

pub record TokenBucketFlow : Type 0 where
  pub lock : Lock

-- An `f64` of seconds, by the values that the source takes from it: `period < 3.0`,
-- `(period * 1000.0).ceil() as u16` and `period.ceil() as u16`.
pub record Period : Type 0 where
  pub below_three : Bool
  pub ceil_millis : ℕ
  pub ceil_seconds : ℕ

-- `Vec::pop`.
unfoldable pub pop {ℓ} : {A : Type ℓ} → List A → Option (List A × A)
pop [] = none
pop (x ∷ xs) = elim (pop xs) [ none ↦ some ([], x) | some (rest, last) ↦ some (x ∷ rest, last) ]

-- `let result = lock.acquire()?; self.read_locks.push(lock);`.
unfoldable pub keep_reader : Result LockCommandResult → Lock → ReadWriteLock → ReadWriteLock
keep_reader (ok r) l p = record p { read_locks = p.read_locks ++ (l ∷ []) }
keep_reader (err e) l p = p
keep_reader panic l p = p
keep_reader out_of_fuel l p = p

module _ {S : Type 0} (b : Backend S) where
  unfoldable pub new_reentrant : List ℕ → ℕ → ℕ → World S → ReentrantLock × World S
  unfolding new_lock set_r_count
  new_reentrant key timeout expired w =
      let (l, w') = new_lock b key timeout expired w in (record { lock = set_r_count l 0xff }, w')

  unfoldable pub reentrant_acquire : Act (ReentrantLock × World S) LockCommandResult
  unfolding acquire
  reentrant_acquire (p, w) =
      let (r, (l, w')) = acquire b (p.lock, w) in (r, (record { lock = l }, w'))

  unfoldable pub reentrant_release : Act (ReentrantLock × World S) LockCommandResult
  unfolding release
  reentrant_release (p, w) =
      let (r, (l, w')) = release b (p.lock, w) in (r, (record { lock = l }, w'))

  -- `count.saturating_sub(1)` is `-` on ℕ.
  unfoldable pub new_semaphore : List ℕ → ℕ → ℕ → ℕ → Semaphore
  new_semaphore key count timeout expired = record {
    key = key;
    count = count - 1;
    timeout = timeout;
    expired = expired;
  }

  unfoldable pub semaphore_acquire : Act (Semaphore × World S) LockCommandResult
  unfolding new_lock set_count acquire
  semaphore_acquire (p, w) =
      let (l, w1) = new_lock b p.key p.timeout p.expired w in
      let (r, (l', w2)) = acquire b (set_count l p.count, w1) in (r, (p, w2))

  unfoldable pub semaphore_release : Act (Semaphore × World S) Unit
  unfolding with_lock_id release_head
  semaphore_release (p, w) =
      let l = with_lock_id b p.key zero_id p.timeout p.expired p.count 0 w in
      let (r, (l', w')) = release_head b none (l, w) in (r, (p, w'))

  unfoldable pub new_read_write : List ℕ → ℕ → ℕ → World S → ReadWriteLock × World S
  unfolding new_lock set_count
  new_read_write key timeout expired w =
      let (l, w') = new_lock b key timeout expired w in
      (
        record {
          key = key;
          timeout = timeout;
          expired = expired;
          write_lock = set_count l 0;
          read_locks = [];
        },
        w',
      )

  unfoldable pub acquire_write : Act (ReadWriteLock × World S) LockCommandResult
  unfolding acquire
  acquire_write (p, w) =
      let (r, (l, w')) = acquire b (p.write_lock, w) in (r, (record p { write_lock = l }, w'))

  unfoldable pub release_write : Act (ReadWriteLock × World S) LockCommandResult
  unfolding release
  release_write (p, w) =
      let (r, (l, w')) = release b (p.write_lock, w) in (r, (record p { write_lock = l }, w'))

  unfoldable pub acquire_read : Act (ReadWriteLock × World S) LockCommandResult
  unfolding new_lock set_count acquire keep_reader
  acquire_read (p, w) =
      let (l, w1) = new_lock b p.key p.timeout p.expired w in
      let (r, (l', w2)) = acquire b (set_count l 0xffff, w1) in (r, (keep_reader r l' p, w2))

  unfoldable pub release_read : Act (ReadWriteLock × World S) LockCommandResult
  unfolding pop release
  release_read (p, w) = elim (pop p.read_locks) [
    | none ↦ (err (lock_data no_read_lock), (p, w))
    | some (rest, l) ↦
        let (r, (l', w')) = release b (l, w) in (r, (record p { read_locks = rest }, w'))
  ]

  unfoldable pub new_priority : List ℕ → ℕ → ℕ → ℕ → World S → PriorityLock × World S
  unfolding new_lock set_r_count merge_flags
  new_priority key priority timeout expired w =
      let (l, w') = new_lock b key timeout expired w in
      let l' = record l { timeout = merge_flags l.timeout timeout_flag_rcount_is_priority } in
      (record { lock = set_r_count l' priority; priority = priority }, w')

  unfoldable pub priority_acquire : Act (PriorityLock × World S) LockCommandResult
  unfolding acquire
  priority_acquire (p, w) =
      let (r, (l, w')) = acquire b (p.lock, w) in (r, (record p { lock = l }, w'))

  unfoldable pub priority_release : Act (PriorityLock × World S) LockCommandResult
  unfolding release
  priority_release (p, w) =
      let (r, (l, w')) = release b (p.lock, w) in (r, (record p { lock = l }, w'))

  unfoldable pub new_max_concurrent : List ℕ → ℕ → ℕ → ℕ → World S → MaxConcurrentFlow × World S
  unfolding new_lock set_count
  new_max_concurrent key limit timeout expired w =
      let (l, w') = new_lock b key timeout expired w in
      (record { lock = set_count l (limit - 1) }, w')

  unfoldable pub flow_acquire : Act (MaxConcurrentFlow × World S) LockCommandResult
  unfolding acquire
  flow_acquire (p, w) = let (r, (l, w')) = acquire b (p.lock, w) in (r, (record { lock = l }, w'))

  unfoldable pub flow_release : Act (MaxConcurrentFlow × World S) LockCommandResult
  unfolding release
  flow_release (p, w) = let (r, (l, w')) = release b (p.lock, w) in (r, (record { lock = l }, w'))

  unfoldable pub new_token_bucket : List ℕ → ℕ → ℕ → Period → World S → TokenBucketFlow × World S
  unfolding new_lock set_count merge_flags
  new_token_bucket key count timeout period w =
      let expired = if period.below_three then max period.ceil_millis 1 else period.ceil_seconds in
      let (l, w') = new_lock b key timeout expired w in
      let l' = set_count l (count - 1) in
      (
        record {
          lock =
              if period.below_three
              then record l' { expired = merge_flags l'.expired expried_flag_millisecond_time }
              else l';
        },
        w',
      )

  unfoldable pub bucket_acquire : Act (TokenBucketFlow × World S) LockCommandResult
  unfolding acquire
  bucket_acquire (p, w) = let (r, (l, w')) = acquire b (p.lock, w) in (r, (record { lock = l }, w'))
