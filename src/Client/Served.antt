-- ===== src/Client/Served.antt =====
-- blocking/primitives.rs on blocking/replset.rs: a lock that is acquired on a replica set.
use ruslock.Prelude.{
  ℕ, suc, ◌+◌, ◌*◌, ◌≤◌, ◌≡◌, ◌≢◌, refl, none, Bool, true, false, if◌then◌else◌, ◌==◌,
}
use ruslock.Constants.{
  command_type_lock, command_result_succed, command_result_locked_error,
  command_result_unlock_error, command_result_unown_error, command_result_timeout,
  command_result_expried, command_result_state_error,
}
use ruslock.Time.{value}
use ruslock.Error.{
  SlockError, Result, ok, err, panic, out_of_fuel, lock_locked, lock_unlocked, lock_not_own,
  lock_timeout, lock_expired, state_error, server,
}
use ruslock.Options.{ClientOptions}
use ruslock.Protocol.Id.{Id16}
use ruslock.Protocol.Command.{
  Command, LockCommand, EncodedCommand, encode_command, lock_extra, lock_header, has_extra_data,
}
use ruslock.Protocol.Reply.{CommandResult, LockCommandResult, init, ping, lock}
use ruslock.Primitive.World.{World, continue, fresh_id}
use ruslock.Primitive.Lock.{
  Lock, check_result, expect_lock, apply_result, lock_command, send_lock, acquire,
}
use ruslock.Replset.{Nodes, Replset}
use ruslock.Replset.Timed.{IsTimed}
use ruslock.Replset.Deadline.{replset_send-Returns}
use ruslock.Client.{Link, Host, backend}
use ruslock.Client.Replicated.{select_database}

if-Returns :
    {A : Type 0} (c : Bool) (x y : Result A)
    → x ≢ out_of_fuel
    → y ≢ out_of_fuel
    → (if c then x else y) ≢ out_of_fuel
if-Returns true x y hx hy = hx
if-Returns false x y hx hy = hy

abbrev failed : {A : Type 0} → SlockError → Result A
failed e = err e

err-Returns : {A : Type 0} (e : SlockError) → failed {A = A} e ≢ out_of_fuel
err-Returns e h = cc

err-or :
    (c : Bool) (e : SlockError) (y : Result LockCommandResult)
    → y ≢ out_of_fuel
    → (if c then err e else y) ≢ out_of_fuel
err-or c e y h = if-Returns c (err e) y (err-Returns e) h

ok-Returns : (r : LockCommandResult) → ok r ≢ out_of_fuel
ok-Returns r h = cc

check_result-Returns : (r : LockCommandResult) → check_result r ≢ out_of_fuel
unfolding check_result
check_result-Returns r = if-Returns (r.result == command_result_succed) (ok r) _ (ok-Returns r) (
    err-or (r.result == command_result_locked_error) (lock_locked r) _ (
      err-or (r.result == command_result_unlock_error) (lock_unlocked r) _ (
        err-or (r.result == command_result_unown_error) (lock_not_own r) _ (
          err-or (r.result == command_result_timeout) (lock_timeout r) _ (
            err-or (r.result == command_result_expried) (lock_expired r) _ (
              err-or (r.result == command_result_state_error) (state_error r) _
                (err-Returns (server r.result))))))))

expect_lock-Returns : (r : Result CommandResult) → r ≢ out_of_fuel → expect_lock r ≢ out_of_fuel
unfolding expect_lock
expect_lock-Returns (ok (init r)) h = err-Returns _
expect_lock-Returns (ok (ping r)) h = err-Returns _
expect_lock-Returns (ok (lock r)) h = λ e. cc
expect_lock-Returns (err e) h = err-Returns e
expect_lock-Returns panic h = λ e. cc
expect_lock-Returns out_of_fuel h = absurd (h refl)

continue-Returns :
    {S : Type 0} (r : Result LockCommandResult) (l : Lock) (w : World S)
    → r ≢ out_of_fuel
    → (continue r apply_result (l, w)).0 ≢ out_of_fuel
unfolding apply_result
continue-Returns (ok r) l w h = check_result-Returns r
continue-Returns (err e) l w h = err-Returns e
continue-Returns panic l w h = λ e. cc
continue-Returns out_of_fuel l w h = absurd (h refl)

-- The encoding of a lock command without data.
plain_encoding : LockCommand → EncodedCommand
plain_encoding c = record {
  request_id = c.request_id;
  command_type = c.command_type;
  header = lock_header c;
  extra = none;
  timeout = value c.timeout * 1000;
  expects_response = true;
}

module _ (l : Lock) (db_id : ℕ) (request_id : Id16) where
  -- The command of an acquire.
  acquiring : LockCommand
  acquiring = lock_command l command_type_lock 0 db_id request_id l.lock_id none

  acquiring-encodes : encode_command (Command.lock acquiring) ≡ ok (plain_encoding acquiring)
  unfolding acquiring plain_encoding encode_command lock_command lock_extra has_extra_data
  acquiring-encodes = refl

module _ {S : Type 0} (link : Link S) (nodes : Nodes S) (host : Host S) {clock : S → ℕ}
    (timed : IsTimed nodes clock) where
  -- `Lock::acquire` on a database of a replica set returns, where the clients of the nodes do, no step
  -- goes back in time and a sleep takes at least its time: if the lock's timeout, in seconds, and the
  -- grace of the options are at most `fuel` times 25 milliseconds, it needs at most one round over the
  -- nodes more than `fuel`.
  pub acquire-Returns :
      (fuel : ℕ) (options : ClientOptions) (l : Lock) (p : Replset S) (db_id counter : ℕ)
      → value l.timeout * 1000 + options.command_timeout_grace ≤ fuel * 25
      → (acquire
          (backend link nodes host (suc fuel) options)
          (l, select_database db_id p counter)).0
        ≢ out_of_fuel
  unfolding acquire backend select_database acquiring plain_encoding lock_command
  acquire-Returns fuel options l p db_id counter enough =
      continue-Returns _ l
        (send_lock (backend link nodes host (suc fuel) options) command_type_lock 0 l.lock_id none
          (l, select_database db_id p counter)).1.1
        (expect_lock-Returns _ (
          replset_send-Returns nodes timed fuel (Command.lock (acquiring l db_id id)) options
            (record p { env = (host.next_u64 (host.timestamp p.env).1).1 })
            (plain_encoding (acquiring l db_id id)) (acquiring-encodes l db_id id) enough))
    where
      id : Id16
      id =
          (fresh_id (backend link nodes host (suc fuel) options)
            (select_database db_id p counter)).0
