-- ===== src/Aio/Twins.antt =====
-- aio/primitives.rs against blocking/primitives.rs: an async method that runs to its end.
use ruslock.Prelude.{ℕ, ◌≡◌, refl, Option}
use ruslock.Data.LockData.{LockData}
use ruslock.Primitive.World.{Backend, World}
use ruslock.Primitive.Lock.{Lock}
use ruslock.Primitive
use ruslock.Aio.Future.{complete, await_inner}
use ruslock.Aio.Lock.{guarded}
use ruslock.Aio

module _ {S : Type 0} (b : Backend S) where
  -- The results of the async and of the blocking methods of `Lock`.
  abbrev pub LockTwins :
      (flag : ℕ) (d : Option LockData) (d1 : LockData) (s : Lock × World S) → Type 0
  LockTwins flag d d1 s =
      (complete b (Aio.Lock.acquire b s) ≡ Primitive.Lock.acquire b s)
      × (complete b (Aio.Lock.acquire_with_data b d1 s) ≡ Primitive.Lock.acquire_with_data b d1 s)
      × (complete b (Aio.Lock.acquire_with_flags b flag d s)
          ≡ Primitive.Lock.acquire_with_flags b flag d s)
      × (complete b (Aio.Lock.release b s) ≡ Primitive.Lock.release b s)
      × (complete b (Aio.Lock.release_with_data b d1 s) ≡ Primitive.Lock.release_with_data b d1 s)
      × (complete b (Aio.Lock.release_with_flags b flag d s)
          ≡ Primitive.Lock.release_with_flags b flag d s)
      × (complete b (Aio.Lock.show b s) ≡ Primitive.Lock.show b s)
      × (complete b (Aio.Lock.update b d s) ≡ Primitive.Lock.update b d s)
      × (complete b (Aio.Lock.release_head b d s) ≡ Primitive.Lock.release_head b d s)
      × (complete b (Aio.Lock.release_head_to_lock_wait b d s)
          ≡ Primitive.Lock.release_head_to_lock_wait b d s)
      × (complete b (Aio.Lock.acquire_guard b s)
          ≡ (let (r, (l, w)) = Primitive.Lock.acquire b s in (guarded r l, (l, w))))
      × (complete b (Aio.Lock.guard_release b (record { lock = s.0 }, s.1))
          ≡ (let (r, (l, w)) = Primitive.Lock.release b s in (r, (record { lock = l }, w))))

  -- Every async method of `Lock` but those of the guard, run to its end with no other task in between,
  -- does what the blocking method does: the same commands in the same order, the same result, lock and
  -- world. `acquire_guard` does what `acquire` does and gives a guard with a clone of the lock, and the
  -- guard is released as that lock is.
  pub lock_methods-LockTwins :
      (flag : ℕ) (d : Option LockData) (d1 : LockData) (s : Lock × World S) → LockTwins flag d d1 s
  unfolding complete await_inner Aio.Lock.acquire Primitive.Lock.acquire Aio.Lock.acquire_with_data
      Primitive.Lock.acquire_with_data Aio.Lock.acquire_with_flags Primitive.Lock.acquire_with_flags
      Aio.Lock.release Primitive.Lock.release Aio.Lock.release_with_data
      Primitive.Lock.release_with_data Aio.Lock.release_with_flags Primitive.Lock.release_with_flags
      Aio.Lock.show Primitive.Lock.show Aio.Lock.update Primitive.Lock.update Aio.Lock.release_head
      Primitive.Lock.release_head Aio.Lock.release_head_to_lock_wait
      Primitive.Lock.release_head_to_lock_wait Aio.Lock.acquire_guard Aio.Lock.guard_release
  lock_methods-LockTwins flag d d1 s =
      (refl, refl, refl, refl, refl, refl, refl, refl, refl, refl, refl, refl)
