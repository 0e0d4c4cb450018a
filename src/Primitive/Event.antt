-- ===== src/Primitive/Event.antt =====
-- blocking/primitives.rs: `Event`.
pub mod Waits
pub mod Pairing
use ruslock.Prelude.{ℕ, List, Option, none, some, Bool, true, false, if◌then◌else◌}
use ruslock.Constants.{timeout_flag_lock_wait_when_unlock}
use ruslock.Key.{key_as_bytes}
use ruslock.Time.{with_flags, value}
use ruslock.Error.{
  Result, ok, err, panic, out_of_fuel, lock_unlocked, lock_timeout, lock_not_own, command_timeout,
  event_wait_timeout,
}
use ruslock.Protocol.Id.{id_from_bytes}
use ruslock.Protocol.Reply.{LockCommandResult}
use ruslock.Data.LockData.{LockData}
use ruslock.Primitive.World.{Backend, World, Act}
use ruslock.Primitive.Lock.{
  Lock, set_count, with_lock_id, new_lock, acquire, release, release_with_flags, update,
}

pub record Event : Type 0 where
  pub lock : Lock
  pub default_set : Bool

-- The `match` of `Event::is_set`.
unfoldable pub is_set_result : Result LockCommandResult → Result Bool
is_set_result (ok r) = ok true
is_set_result (err (lock_timeout r)) = ok false
is_set_result (err (lock_not_own r)) = ok false
is_set_result (err e) = err e
is_set_result panic = panic
is_set_result out_of_fuel = out_of_fuel

-- The `match` on a release in `Event::set_with_data`, `Event::clear` and `GroupEvent::set`.
unfoldable pub unlock_result {ℓ} : {A : Type ℓ} → Result A → Result (Unit {0})
unlock_result (ok a) = ok tt
unlock_result (err (lock_unlocked r)) = ok tt
unlock_result (err e) = err e
unlock_result panic = panic
unlock_result out_of_fuel = out_of_fuel

-- The `map_err` of `Event::wait` and `GroupEvent::wait`.
unfoldable pub wait_result {ℓ} : {A : Type ℓ} → Result A → Result A
wait_result (ok a) = ok a
wait_result (err (lock_timeout r)) = err event_wait_timeout
wait_result (err command_timeout) = err event_wait_timeout
wait_result (err e) = err e
wait_result panic = panic
wait_result out_of_fuel = out_of_fuel

-- `.map(|_| ())`.
unfoldable pub forget {ℓ} : {A : Type ℓ} → Result A → Result (Unit {0})
forget (ok a) = ok tt
forget (err e) = err e
forget panic = panic
forget out_of_fuel = out_of_fuel

module _ {S : Type 0} (b : Backend S) where
  -- `Event::new`.
  unfoldable pub new_event : List ℕ → ℕ → ℕ → Bool → World S → Event × World S
  unfolding new_lock
  new_event key timeout expired default_set w =
      let (l, w') = new_lock b key timeout expired w in
      (record { lock = l; default_set = default_set }, w')

  -- `Event::event_lock`: the lock whose id is the key.
  unfoldable pub event_lock : Event → ℕ → World S → Lock
  unfolding with_lock_id key_as_bytes id_from_bytes value
  event_lock e count w =
      with_lock_id b (key_as_bytes e.lock.lock_key) (id_from_bytes (key_as_bytes e.lock.lock_key))
        (value e.lock.timeout) (value e.lock.expired) count 0 w

  -- A lock that waits for the event's lock to be held: what `is_set` and `wait` make of a new lock
  -- unless `default_set`.
  unfoldable pub reversed : Event → ℕ → Lock → Lock
  unfolding set_count
  reversed e timeout l =
      if e.default_set
      then l
      else set_count (record l { timeout = with_flags timeout timeout_flag_lock_wait_when_unlock })
          1

  unfoldable pub is_set : Act (Event × World S) Bool
  unfolding new_lock reversed acquire is_set_result key_as_bytes
  is_set (e, w) =
      let (l, w1) = new_lock b (key_as_bytes e.lock.lock_key) 0 0 w in
      let (r, (l', w2)) = acquire b (reversed e 0 l, w1) in (is_set_result r, (e, w2))

  -- `Event::set_with_data`.
  unfoldable pub set_with_data : Option LockData → Act (Event × World S) Unit
  unfolding event_lock release_with_flags unlock_result update
  set_with_data contents (e, w) =
      if e.default_set
      then (let (r, (l, w')) = release_with_flags b 0 contents (event_lock e 0 w, w) in
          (unlock_result r, (e, w')))
      else (let (r, (l, w')) = update b contents (event_lock e 1 w, w) in (r, (e, w')))

  unfoldable pub set : Act (Event × World S) Unit
  unfolding set_with_data
  set = set_with_data none

  unfoldable pub clear : Act (Event × World S) Unit
  unfolding event_lock release unlock_result update
  clear (e, w) =
      if e.default_set
      then (let (r, (l, w')) = update b none (event_lock e 0 w, w) in (r, (e, w')))
      else (let (r, (l, w')) = release b (event_lock e 1 w, w) in (unlock_result r, (e, w')))

  -- `Event::wait`: the event keeps the data of the reply, also of a failed one.
  unfoldable pub wait : ℕ → Act (Event × World S) Unit
  unfolding new_lock reversed acquire forget wait_result key_as_bytes
  wait timeout (e, w) =
      let (l, w1) = new_lock b (key_as_bytes e.lock.lock_key) timeout 0 w in
      let (r, (l', w2)) = acquire b (reversed e timeout l, w1) in
      (
        wait_result (forget r),
        (record e { lock = record e.lock { current_data = l'.current_data } }, w2),
      )
