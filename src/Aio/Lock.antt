-- ===== src/Aio/Lock.antt =====
-- aio/primitives.rs: the async methods of `Lock`, and `LockGuard`.
use ruslock.Prelude.{ℕ, Option, none, some, is_some, if◌then◌else◌, bit_or}
use ruslock.Constants.{
  command_type_lock, command_type_unlock, lock_flag_contains_data, unlock_flag_contains_data,
  lock_flag_show_when_locked, lock_flag_update_when_locked,
  unlock_flag_unlock_first_lock_when_unlocked, unlock_flag_succed_to_lock_wait,
}
use ruslock.Error.{Result, ok, err, panic, out_of_fuel}
use ruslock.Protocol.Id.{Id16, zero_id}
use ruslock.Protocol.Command.{Command}
use ruslock.Protocol.Reply.{LockCommandResult}
use ruslock.Data.LockData.{LockData}
use ruslock.Primitive.World.{Backend, World, continue, fresh_id}
use ruslock.Primitive.Lock.{
  Lock, lock_command, expect_lock, apply_result, data_flag, show_result, update_result, done,
}
use ruslock.Aio.Future.{Future, ready, waits, Async, returned, await_inner}

-- `LockGuard`.
pub record LockGuard : Type 0 where
  pub lock : Lock

-- What `acquire_guard` makes of the lock: a guard with a clone of it.
unfoldable pub guarded : Result LockCommandResult → Lock → Result LockGuard
guarded (ok r) l = ok (record { lock = l })
guarded (err e) l = err e
guarded panic l = panic
guarded out_of_fuel l = out_of_fuel

module _ {S : Type 0} (b : Backend S) where
  -- `self.send_lock(..).await?` and `self.apply_result(..)`.
  unfoldable pub apply_reply :
      Result LockCommandResult → Lock → World S → Future Lock S LockCommandResult
  unfolding apply_result
  apply_reply r l w = returned (continue r apply_result (l, w))

  -- `Lock::send_lock`.
  unfoldable pub send_lock : ℕ → ℕ → Id16 → Option LockData → Async Lock S LockCommandResult
  unfolding fresh_id lock_command expect_lock
  send_lock command_type flag lock_id contents (l, w) =
      let (id, w1) = fresh_id b w in
      waits (Command.lock (lock_command l command_type flag w.db_id id lock_id contents)) l w1
        (λ r w2. ready (expect_lock r) l w2)

  -- `Lock::acquire_with_flags`.
  unfoldable pub acquire_with_flags : ℕ → Option LockData → Async Lock S LockCommandResult
  unfolding send_lock apply_reply data_flag
  acquire_with_flags flag contents (l, w) =
      await_inner (λ l'. l')
        (send_lock command_type_lock (data_flag lock_flag_contains_data flag contents) l.lock_id
          contents (l, w))
        (λ r l' w'. apply_reply r l' w')

  unfoldable pub acquire : Async Lock S LockCommandResult
  unfolding acquire_with_flags
  acquire = acquire_with_flags 0 none

  -- `Lock::acquire_guard`.
  unfoldable pub acquire_guard : Async Lock S LockGuard
  unfolding acquire guarded
  acquire_guard s = await_inner (λ l. l) (acquire s) (λ r l w. ready (guarded r l) l w)

  unfoldable pub acquire_with_data : LockData → Async Lock S LockCommandResult
  unfolding acquire_with_flags
  acquire_with_data d = acquire_with_flags 0 (some d)

  -- `Lock::release_with_flags`.
  unfoldable pub release_with_flags : ℕ → Option LockData → Async Lock S LockCommandResult
  unfolding send_lock apply_reply data_flag
  release_with_flags flag contents (l, w) =
      await_inner (λ l'. l')
        (send_lock command_type_unlock (data_flag unlock_flag_contains_data flag contents) l.lock_id
          contents (l, w))
        (λ r l' w'. apply_reply r l' w')

  unfoldable pub release : Async Lock S LockCommandResult
  unfolding release_with_flags
  release = release_with_flags 0 none

  unfoldable pub release_with_data : LockData → Async Lock S LockCommandResult
  unfolding release_with_flags
  release_with_data d = release_with_flags 0 (some d)

  -- `Lock::show`.
  unfoldable pub show : Async Lock S (Option LockCommandResult)
  unfolding acquire_with_flags show_result
  show s =
      await_inner (λ l. l) (acquire_with_flags lock_flag_show_when_locked none s)
        (λ r l w. ready (show_result r) l w)

  -- `Lock::update`.
  unfoldable pub update : Option LockData → Async Lock S (Unit {0})
  unfolding acquire_with_flags update_result
  update contents s =
      await_inner (λ l. l) (acquire_with_flags lock_flag_update_when_locked contents s)
        (λ r l w. ready (update_result r) l w)

  -- `Lock::release_head`.
  unfoldable pub release_head : Option LockData → Async Lock S (Unit {0})
  unfolding send_lock apply_reply done
  release_head contents s =
      let flag =
        bit_or unlock_flag_unlock_first_lock_when_unlocked
          (if is_some contents then unlock_flag_contains_data else 0) in
      await_inner (λ l. l)
        (await_inner (λ l. l) (send_lock command_type_unlock flag zero_id contents s)
          (λ r l w. apply_reply r l w))
        (λ r l w. ready (done r) l w)

  -- `Lock::release_head_to_lock_wait`.
  unfoldable pub release_head_to_lock_wait : Option LockData → Async Lock S LockCommandResult
  unfolding release_with_flags
  release_head_to_lock_wait =
      release_with_flags
        (bit_or unlock_flag_unlock_first_lock_when_unlocked unlock_flag_succed_to_lock_wait)

  -- `LockGuard::release`.
  unfoldable pub guard_release : Async LockGuard S LockCommandResult
  unfolding release
  guard_release (g, w) =
      await_inner (λ l. record { lock = l }) (release (g.lock, w))
        (λ r l w'. ready r (record { lock = l }) w')
