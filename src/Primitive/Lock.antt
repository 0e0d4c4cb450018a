-- ===== src/Primitive/Lock.antt =====
-- blocking/primitives.rs: `Lock`.
pub mod Commands
use ruslock.Prelude.{ℕ, List, Option, none, some, Bool, true, false, is_some, ◌==◌, if◌then◌else◌}
use ruslock.Prelude.{bit_or}
use ruslock.Constants.{
  command_type_lock, command_type_unlock, lock_flag_contains_data, unlock_flag_contains_data,
  lock_flag_show_when_locked, lock_flag_update_when_locked,
  unlock_flag_unlock_first_lock_when_unlocked, unlock_flag_succed_to_lock_wait,
  command_result_succed, command_result_locked_error, command_result_unlock_error,
  command_result_unown_error, command_result_timeout, command_result_expried,
  command_result_state_error,
}
use ruslock.Key.{Key16, new_key}
use ruslock.Time.{PackedTime}
use ruslock.Error.{
  SlockError, Result, ok, err, panic, out_of_fuel, protocol, expected_lock_result, lock_locked,
  lock_unlocked, lock_not_own, lock_timeout, lock_expired, state_error, server,
}
use ruslock.Protocol.Id.{Id16, zero_id}
use ruslock.Protocol.Command.{Command, LockCommand}
use ruslock.Protocol.Reply.{CommandResult, LockCommandResult, init, ping, lock}
use ruslock.Data.Raw.{LockResultData}
use ruslock.Data.LockData.{LockData}
use ruslock.Primitive.World.{
  Backend, World, Act, ◌>>=◌, continue, fresh_id, send_command, database_timeout, database_expired,
}

-- The database of a lock is in its world.
pub record Lock : Type 0 where
  pub lock_key : Key16
  pub lock_id : Id16
  pub timeout : PackedTime
  pub expired : PackedTime
  pub count : ℕ
  pub r_count : ℕ
  pub current_data : Option LockResultData

unfoldable pub set_count : Lock → ℕ → Lock
set_count l count = record l { count = count }

unfoldable pub set_r_count : Lock → ℕ → Lock
set_r_count l r_count = record l { r_count = r_count }

-- The `match` of `send_lock`.
unfoldable pub expect_lock : Result CommandResult → Result LockCommandResult
expect_lock (ok (init r)) = err (protocol expected_lock_result)
expect_lock (ok (ping r)) = err (protocol expected_lock_result)
expect_lock (ok (lock r)) = ok r
expect_lock (err e) = err e
expect_lock panic = panic
expect_lock out_of_fuel = out_of_fuel

-- The `match` of `apply_result`.
unfoldable pub check_result : LockCommandResult → Result LockCommandResult
check_result r =
    if r.result == command_result_succed
    then ok r
    else if r.result == command_result_locked_error
    then err (lock_locked r)
    else if r.result == command_result_unlock_error
    then err (lock_unlocked r)
    else if r.result == command_result_unown_error
    then err (lock_not_own r)
    else if r.result == command_result_timeout
    then err (lock_timeout r)
    else if r.result == command_result_expried
    then err (lock_expired r)
    else if r.result == command_result_state_error
    then err (state_error r)
    else err (server r.result)

-- The `match` of `Lock::show`.
unfoldable pub show_result : Result LockCommandResult → Result (Option LockCommandResult)
show_result (ok r) = ok (some r)
show_result (err (lock_not_own r)) = ok (some r)
show_result (err e) = err e
show_result panic = panic
show_result out_of_fuel = out_of_fuel

-- The `match` of `Lock::update`.
unfoldable pub update_result : Result LockCommandResult → Result (Unit {0})
update_result (ok r) = ok tt
update_result (err (lock_locked r)) = ok tt
update_result (err e) = err e
update_result panic = panic
update_result out_of_fuel = out_of_fuel

-- `result?; Ok(())`.
unfoldable pub done : Result LockCommandResult → Result (Unit {0})
done (ok r) = ok tt
done (err e) = err e
done panic = panic
done out_of_fuel = out_of_fuel

-- `if data.is_some() { flag | CONTAINS_DATA } else { flag }`.
unfoldable pub data_flag : ℕ → ℕ → Option LockData → ℕ
data_flag contains flag contents = if is_some contents then bit_or flag contains else flag

-- The command that `Lock::send_lock` makes.
unfoldable pub lock_command : Lock → ℕ → ℕ → ℕ → Id16 → Id16 → Option LockData → LockCommand
lock_command l command_type flag db_id request_id lock_id contents = record {
  command_type = command_type;
  flag = flag;
  db_id = db_id;
  request_id = request_id;
  lock_key = l.lock_key;
  lock_id = lock_id;
  timeout = l.timeout;
  expired = l.expired;
  count = l.count;
  r_count = l.r_count;
  contents = contents;
}

module _ {S : Type 0} where
  -- `Lock::apply_result`.
  unfoldable pub apply_result : LockCommandResult → Act (Lock × World S) LockCommandResult
  unfolding check_result
  apply_result r (l, w) = (check_result r, (record l { current_data = r.contents }, w))

module _ {S : Type 0} (b : Backend S) where
  -- `Lock::with_lock_id`.
  unfoldable pub with_lock_id : List ℕ → Id16 → ℕ → ℕ → ℕ → ℕ → World S → Lock
  unfolding database_timeout database_expired
  with_lock_id key lock_id timeout expired count r_count w = record {
    lock_key = new_key b.md5 key;
    lock_id = lock_id;
    timeout = database_timeout timeout w;
    expired = database_expired expired w;
    count = count;
    r_count = r_count;
    current_data = none;
  }

  -- `Lock::new`.
  unfoldable pub new_lock : List ℕ → ℕ → ℕ → World S → Lock × World S
  unfolding database_timeout database_expired fresh_id
  new_lock key timeout expired w =
      let (id, w') = fresh_id b w in
      (
        record {
          lock_key = new_key b.md5 key;
          lock_id = id;
          timeout = database_timeout timeout w;
          expired = database_expired expired w;
          count = 0;
          r_count = 0;
          current_data = none;
        },
        w',
      )

  -- `Lock::send_lock`.
  unfoldable pub send_lock : ℕ → ℕ → Id16 → Option LockData → Act (Lock × World S) LockCommandResult
  unfolding fresh_id lock_command expect_lock send_command
  send_lock command_type flag lock_id contents (l, w) =
      let (id, w1) = fresh_id b w in
      let command = Command.lock (lock_command l command_type flag w.db_id id lock_id contents) in
      let (r, w2) = send_command b command w1 in (expect_lock r, (l, w2))

  -- `Lock::acquire_with_flags`.
  unfoldable pub acquire_with_flags : ℕ → Option LockData → Act (Lock × World S) LockCommandResult
  unfolding send_lock apply_result data_flag
  acquire_with_flags flag contents (l, w) =
      (send_lock command_type_lock (data_flag lock_flag_contains_data flag contents) l.lock_id
            contents
          >>= apply_result)
        (l, w)

  unfoldable pub acquire : Act (Lock × World S) LockCommandResult
  unfolding acquire_with_flags
  acquire = acquire_with_flags 0 none

  unfoldable pub acquire_with_data : LockData → Act (Lock × World S) LockCommandResult
  unfolding acquire_with_flags
  acquire_with_data d = acquire_with_flags 0 (some d)

  -- `Lock::release_with_flags`.
  unfoldable pub release_with_flags : ℕ → Option LockData → Act (Lock × World S) LockCommandResult
  unfolding send_lock apply_result data_flag
  release_with_flags flag contents (l, w) =
      (send_lock command_type_unlock (data_flag unlock_flag_contains_data flag contents) l.lock_id
            contents
          >>= apply_result)
        (l, w)

  unfoldable pub release : Act (Lock × World S) LockCommandResult
  unfolding release_with_flags
  release = release_with_flags 0 none

  unfoldable pub release_with_data : LockData → Act (Lock × World S) LockCommandResult
  unfolding release_with_flags
  release_with_data d = release_with_flags 0 (some d)

  -- `Lock::show`: not owning the lock is an answer, too.
  unfoldable pub show : Act (Lock × World S) (Option LockCommandResult)
  unfolding acquire_with_flags show_result
  show s = let (r, s') = acquire_with_flags lock_flag_show_when_locked none s in (show_result r, s')

  -- `Lock::update`: a lock that is held is updated.
  unfoldable pub update : Option LockData → Act (Lock × World S) Unit
  unfolding acquire_with_flags update_result
  update contents s =
      let (r, s') = acquire_with_flags lock_flag_update_when_locked contents s in
      (update_result r, s')

  -- `Lock::release_head`: under the zero id.
  unfoldable pub release_head : Option LockData → Act (Lock × World S) Unit
  unfolding send_lock apply_result done
  release_head contents s =
      let flag =
        bit_or unlock_flag_unlock_first_lock_when_unlocked
          (if is_some contents then unlock_flag_contains_data else 0) in
      let (r, s') = (send_lock command_type_unlock flag zero_id contents >>= apply_result) s in
      (done r, s')

  -- `Lock::release_head_to_lock_wait`.
  unfoldable pub release_head_to_lock_wait :
      Option LockData → Act (Lock × World S) LockCommandResult
  unfolding release_with_flags
  release_head_to_lock_wait =
      release_with_flags
        (bit_or unlock_flag_unlock_first_lock_when_unlocked unlock_flag_succed_to_lock_wait)
