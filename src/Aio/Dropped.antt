-- ===== src/Aio/Dropped.antt =====
-- aio/primitives.rs: what is left of a primitive when a future of its async method is dropped.
use ruslock.Prelude.{ℕ, ◌≡◌, refl, Option, none, Bool, true, false, List}
use ruslock.Constants.{command_type_unlock}
use ruslock.Error.{Result, ◌>>=◌}
use ruslock.Protocol.Command.{Command, LockCommand}
use ruslock.Protocol.Reply.{CommandResult, LockCommandResult, lock}
use ruslock.Data.LockData.{LockData}
use ruslock.Primitive.World.{Backend, World}
use ruslock.Primitive.Lock.{Lock, expect_lock, check_result}
use ruslock.Primitive.Event.{Event}
use ruslock.Primitive.GroupEvent.{GroupEvent}
use ruslock.Primitive.Locks.{
  ReentrantLock, Semaphore, ReadWriteLock, PriorityLock, MaxConcurrentFlow, TokenBucketFlow,
}
use ruslock.Aio.Future.{Future, ready, waits, await_inner, AtAwaits}
use ruslock.Aio

-- Wherever the future waits, the primitive is as it was.
abbrev pub IsUntouched : {O S A : Type 0} → O → Future O S A → Type 0
IsUntouched o f = AtAwaits (λ c o'. o' ≡ o) f

module _ {S : Type 0} (b : Backend S) where
  -- The lock is as it was, wherever a method waits.
  abbrev pub LockUntouched :
      (flag : ℕ) (d : Option LockData) (d1 : LockData) (s : Lock × World S) → Type 0
  LockUntouched flag d d1 s =
      IsUntouched s.0 (Aio.Lock.acquire b s)
      × IsUntouched s.0 (Aio.Lock.acquire_with_data b d1 s)
      × IsUntouched s.0 (Aio.Lock.acquire_with_flags b flag d s)
      × IsUntouched s.0 (Aio.Lock.acquire_guard b s)
      × IsUntouched s.0 (Aio.Lock.release b s)
      × IsUntouched s.0 (Aio.Lock.release_with_data b d1 s)
      × IsUntouched s.0 (Aio.Lock.release_with_flags b flag d s)
      × IsUntouched s.0 (Aio.Lock.show b s)
      × IsUntouched s.0 (Aio.Lock.update b d s)
      × IsUntouched s.0 (Aio.Lock.release_head b d s)
      × IsUntouched s.0 (Aio.Lock.release_head_to_lock_wait b d s)

  -- A future of any async method of `Lock`, dropped wherever it waits, leaves the lock as it was.
  pub lock_methods-IsUntouched :
      (flag : ℕ) (d : Option LockData) (d1 : LockData) (s : Lock × World S)
      → LockUntouched flag d d1 s
  unfolding AtAwaits await_inner Aio.Lock.acquire Aio.Lock.acquire_with_data
      Aio.Lock.acquire_with_flags Aio.Lock.acquire_guard Aio.Lock.release Aio.Lock.release_with_data
      Aio.Lock.release_with_flags Aio.Lock.show Aio.Lock.update Aio.Lock.release_head
      Aio.Lock.release_head_to_lock_wait
  lock_methods-IsUntouched flag d d1 s = (
    (refl, λ r w. tt),
    (refl, λ r w. tt),
    (refl, λ r w. tt),
    (refl, λ r w. tt),
    (refl, λ r w. tt),
    (refl, λ r w. tt),
    (refl, λ r w. tt),
    (refl, λ r w. tt),
    (refl, λ r w. tt),
    (refl, λ r w. tt),
    (refl, λ r w. tt),
  )

  set_with_data-IsUntouched :
      (d : Option LockData) (x : Bool) (l : Lock) (w : World S)
      → IsUntouched {O = Event}
          (record { lock = l; default_set = x })
          (Aio.Event.set_with_data b d (record { lock = l; default_set = x }, w))
  unfolding AtAwaits await_inner Aio.Event.set_with_data
  set_with_data-IsUntouched d true l w = (refl, λ r w. tt)
  set_with_data-IsUntouched d false l w = (refl, λ r w. tt)

  clear-IsUntouched :
      (x : Bool) (l : Lock) (w : World S)
      → IsUntouched {O = Event}
          (record { lock = l; default_set = x })
          (Aio.Event.clear b (record { lock = l; default_set = x }, w))
  unfolding AtAwaits await_inner Aio.Event.clear
  clear-IsUntouched true l w = (refl, λ r w. tt)
  clear-IsUntouched false l w = (refl, λ r w. tt)

  -- The event is as it was, wherever a method waits.
  abbrev pub EventUntouched :
      (d : Option LockData) (t : ℕ) (s : Event × World S) (g : GroupEvent × World S) → Type 0
  EventUntouched d t s g =
      IsUntouched s.0 (Aio.Event.is_set b s)
      × IsUntouched s.0 (Aio.Event.set b s)
      × IsUntouched s.0 (Aio.Event.set_with_data b d s)
      × IsUntouched s.0 (Aio.Event.clear b s)
      × IsUntouched s.0 (Aio.Event.wait b t s)
      × IsUntouched g.0 (Aio.GroupEvent.is_set b g)
      × IsUntouched g.0 (Aio.GroupEvent.set b g)
      × IsUntouched g.0 (Aio.GroupEvent.clear b g)
      × IsUntouched g.0 (Aio.GroupEvent.wakeup b d g)
      × IsUntouched g.0 (Aio.GroupEvent.wait b t g)

  -- A future of any async method of `Event` and `GroupEvent`, dropped wherever it waits, leaves the
  -- event as it was.
  pub event_methods-IsUntouched :
      (d : Option LockData) (t : ℕ) (s : Event × World S) (g : GroupEvent × World S)
      → EventUntouched d t s g
  unfolding AtAwaits await_inner Aio.Event.is_set Aio.Event.set Aio.Event.wait Aio.GroupEvent.is_set
      Aio.GroupEvent.set Aio.GroupEvent.clear Aio.GroupEvent.wakeup Aio.GroupEvent.wait
  event_methods-IsUntouched d t (e, w) g = (
    (refl, λ r w. tt),
    set_with_data-IsUntouched none e.default_set e.lock w,
    set_with_data-IsUntouched d e.default_set e.lock w,
    clear-IsUntouched e.default_set e.lock w,
    (refl, λ r w. tt),
    (refl, λ r w. tt),
    (refl, λ r w. tt),
    (refl, λ r w. tt),
    (refl, λ r w. tt),
    (refl, λ r w. tt),
  )

  -- The lock or flow is as it was, wherever a method waits.
  abbrev pub CountingUntouched :
      (r : ReentrantLock × World S) (s : Semaphore × World S) (p : ReadWriteLock × World S)
      → (y : PriorityLock × World S) (m : MaxConcurrentFlow × World S)
        (k : TokenBucketFlow × World S)
      → Type 0
  CountingUntouched r s p y m k =
      IsUntouched r.0 (Aio.Locks.reentrant_acquire b r)
      × IsUntouched r.0 (Aio.Locks.reentrant_release b r)
      × IsUntouched s.0 (Aio.Locks.semaphore_acquire b s)
      × IsUntouched s.0 (Aio.Locks.semaphore_release b s)
      × IsUntouched p.0 (Aio.Locks.acquire_write b p)
      × IsUntouched p.0 (Aio.Locks.release_write b p)
      × IsUntouched p.0 (Aio.Locks.acquire_read b p)
      × IsUntouched y.0 (Aio.Locks.priority_acquire b y)
      × IsUntouched y.0 (Aio.Locks.priority_release b y)
      × IsUntouched m.0 (Aio.Locks.flow_acquire b m)
      × IsUntouched m.0 (Aio.Locks.flow_release b m)
      × IsUntouched k.0 (Aio.Locks.bucket_acquire b k)

  -- A future of any async method of the counting locks and the flows but `release_read`, dropped
  -- wherever it waits, leaves the lock or flow as it was.
  pub counting_methods-IsUntouched :
      (r : ReentrantLock × World S) (s : Semaphore × World S) (p : ReadWriteLock × World S)
      → (y : PriorityLock × World S) (m : MaxConcurrentFlow × World S)
        (k : TokenBucketFlow × World S)
      → CountingUntouched r s p y m k
  unfolding AtAwaits await_inner Aio.Locks.reentrant_acquire Aio.Locks.reentrant_release
      Aio.Locks.semaphore_acquire Aio.Locks.semaphore_release Aio.Locks.acquire_write
      Aio.Locks.release_write Aio.Locks.acquire_read Aio.Locks.priority_acquire
      Aio.Locks.priority_release Aio.Locks.flow_acquire Aio.Locks.flow_release
      Aio.Locks.bucket_acquire
  counting_methods-IsUntouched r s p y m k = (
    (refl, λ r w. tt),
    (refl, λ r w. tt),
    (refl, λ r w. tt),
    (refl, λ r w. tt),
    (refl, λ r w. tt),
    (refl, λ r w. tt),
    (refl, λ r w. tt),
    (refl, λ r w. tt),
    (refl, λ r w. tt),
    (refl, λ r w. tt),
    (refl, λ r w. tt),
    (refl, λ r w. tt),
  )

  -- What a future of `release_read` is at its one wait: it has taken `last` from the readers, it has
  -- sent nothing yet, and waits for the client's answer to the unlock of `last`. Whatever the answer,
  -- it returns the result of that answer, with the readers `before`.
  pub data Left (before : List Lock) (last : Lock) (p : ReadWriteLock) (w : World S)
      : Future ReadWriteLock S LockCommandResult → Type 0 where
    left :
        {c : LockCommand} {w' : World S}
        {k : Result CommandResult → World S → Future ReadWriteLock S LockCommandResult}
        → c.command_type ≡ command_type_unlock
        → c.lock_id ≡ last.lock_id
        → c.lock_key ≡ last.lock_key
        → w'.sent ≡ w.sent
        → ((r : Result CommandResult) (w2 : World S)
            → k r w2 ≡ ready (expect_lock r >>= check_result) (record p { read_locks = before }) w2)
        → Left before last p w (waits (Command.lock c) (record p { read_locks = before }) w' k)
