-- ===== src/Aio/Methods.antt =====
-- aio/primitives.rs: what holds of all its async methods.
use ruslock.Prelude.{ℕ, Option}
use ruslock.Data.LockData.{LockData}
use ruslock.Primitive.World.{Backend, World}
use ruslock.Primitive.Lock.{Lock}
use ruslock.Primitive.Event.{Event}
use ruslock.Primitive.GroupEvent.{GroupEvent}
use ruslock.Primitive.Locks.{
  ReentrantLock, Semaphore, ReadWriteLock, PriorityLock, MaxConcurrentFlow, TokenBucketFlow,
}
use ruslock.Primitive.Tree.{TreeLock, TreeLeafLock}
use ruslock.Aio.Twins.{LockTwins, lock_methods-LockTwins}
use ruslock.Aio.EventTwins.{EventTwins, event_methods-EventTwins}
use ruslock.Aio.LockTwins.{CountingTwins, counting_methods-CountingTwins}
use ruslock.Aio.TreeTwins.{TreeTwins, tree_methods-TreeTwins}
use ruslock.Aio.Dropped.{
  LockUntouched, lock_methods-IsUntouched, EventUntouched, event_methods-IsUntouched,
  CountingUntouched, counting_methods-IsUntouched,
}
use ruslock.Aio.TreeDropped.{TreeUntouched, tree_methods-IsUntouched}

-- One primitive of each type, all in one world.
pub record Primitives : Type 0 where
  pub lock : Lock
  pub event : Event
  pub group_event : GroupEvent
  pub reentrant : ReentrantLock
  pub semaphore : Semaphore
  pub read_write : ReadWriteLock
  pub priority : PriorityLock
  pub max_concurrent : MaxConcurrentFlow
  pub token_bucket : TokenBucketFlow
  pub tree : TreeLock
  pub leaf : TreeLeafLock

-- The arguments of their methods.
pub record Arguments : Type 0 where
  pub flag : ℕ
  pub timeout : ℕ
  pub contents : Option LockData
  pub some_contents : LockData

module _ {S : Type 0} (b : Backend S) where
  abbrev pub AllTwins : Arguments → Primitives → World S → Type 0
  AllTwins a p w =
      LockTwins b a.flag a.contents a.some_contents (p.lock, w)
      × EventTwins b a.contents a.timeout (p.event, w) (p.group_event, w)
      × CountingTwins b (p.reentrant, w) (p.semaphore, w) (p.read_write, w) (p.priority, w)
          (p.max_concurrent, w) (p.token_bucket, w)
      × TreeTwins b a.timeout (p.tree, w) (p.leaf, w)

  -- Every async method of every primitive, run to its end with no other task in between, does what the
  -- blocking method does: it sends the same commands in the same order and leaves the same result,
  -- primitive and world, whatever the client answers. `acquire_guard` does what `acquire` does and
  -- gives a guard with a clone of the lock, and the guard is released as that lock is.
  pub async_methods-AllTwins : (a : Arguments) (p : Primitives) (w : World S) → AllTwins a p w
  async_methods-AllTwins a p w = (
    lock_methods-LockTwins b a.flag a.contents a.some_contents (p.lock, w),
    event_methods-EventTwins b a.contents a.timeout (p.event, w) (p.group_event, w),
    counting_methods-CountingTwins b (p.reentrant, w) (p.semaphore, w) (p.read_write, w)
        (p.priority, w) (p.max_concurrent, w) (p.token_bucket, w),
    tree_methods-TreeTwins b a.timeout (p.tree, w) (p.leaf, w),
  )

  abbrev pub AllUntouched : Arguments → Primitives → World S → Type 0
  AllUntouched a p w =
      LockUntouched b a.flag a.contents a.some_contents (p.lock, w)
      × EventUntouched b a.contents a.timeout (p.event, w) (p.group_event, w)
      × CountingUntouched b (p.reentrant, w) (p.semaphore, w) (p.read_write, w) (p.priority, w)
          (p.max_concurrent, w) (p.token_bucket, w)
      × TreeUntouched b a.timeout (p.tree, w) (p.leaf, w)

  -- A future of an async method of a primitive, but those of `release_read` and of a guard, dropped
  -- wherever it waits and whatever other tasks do meanwhile, leaves the primitive as it was; one of
  -- the acquire of a tree leaf leaves the leaf as it was up to the data of its lock.
  pub async_methods-AllUntouched :
      (a : Arguments) (p : Primitives) (w : World S) → AllUntouched a p w
  async_methods-AllUntouched a p w = (
    lock_methods-IsUntouched b a.flag a.contents a.some_contents (p.lock, w),
    event_methods-IsUntouched b a.contents a.timeout (p.event, w) (p.group_event, w),
    counting_methods-IsUntouched b (p.reentrant, w) (p.semaphore, w) (p.read_write, w)
        (p.priority, w) (p.max_concurrent, w) (p.token_bucket, w),
    tree_methods-IsUntouched b a.timeout (p.tree, w) (p.leaf, w),
  )
