-- ===== src/Primitive/GroupEvent.antt =====
-- blocking/primitives.rs: `GroupEvent`.
pub mod Versions
use ruslock.Prelude.{ℕ, List, ◌++◌, Option, none, some, Bool, not, if◌then◌else◌, take, replicate}
use ruslock.Prelude.{write_at, to_le_bytes, from_le_bytes}
use ruslock.Constants.{timeout_flag_less_lock_version_is_lock_succed}
use ruslock.Key.{key_as_bytes}
use ruslock.Time.{merge_flags, value}
use ruslock.Error.{Result, ok, err, panic, out_of_fuel, lock_timeout}
use ruslock.Protocol.Id.{Id16, zero_id, id_from_bytes, id_as_bytes, id_eq}
use ruslock.Protocol.Reply.{LockCommandResult}
use ruslock.Data.LockData.{LockData}
use ruslock.Primitive.World.{Backend, World, Act, fresh_id}
use ruslock.Primitive.Lock.{
  Lock, with_lock_id, acquire, update, release_head, release_head_to_lock_wait,
}
use ruslock.Primitive.Event.{unlock_result, wait_result}

pub record GroupEvent : Type 0 where
  pub lock : Lock
  pub client_id : ℕ
  pub version_id : ℕ

-- The version in the low half of the id, the client in the high half.
unfoldable pub encode_group_event_lock_id : ℕ → ℕ → Id16
unfolding id_from_bytes to_le_bytes
encode_group_event_lock_id client_id version_id =
    id_from_bytes (
      write_at (write_at (replicate 16 0) 0 (to_le_bytes 8 version_id)) 8 (to_le_bytes 8 client_id))

-- `u64::from_le_bytes(lock_id.as_bytes()[0..8])`.
unfoldable pub version_of : Id16 → ℕ
unfolding id_as_bytes from_le_bytes
version_of id = from_le_bytes (take 8 (id_as_bytes id))

-- The `match` of `GroupEvent::is_set`.
unfoldable pub is_set_result : Result LockCommandResult → Result Bool
is_set_result (ok r) = ok Bool.true
is_set_result (err (lock_timeout r)) = ok Bool.false
is_set_result (err e) = err e
is_set_result panic = panic
is_set_result out_of_fuel = out_of_fuel

-- `lock.timeout.merge_flags(LESS_LOCK_VERSION_IS_LOCK_SUCCED)`.
unfoldable pub by_version : Lock → Lock
unfolding merge_flags
by_version l = record l {
  timeout = merge_flags l.timeout timeout_flag_less_lock_version_is_lock_succed;
}

-- What `wakeup` makes of the reply: a lock id that is not zero brings the version.
unfoldable pub after_wakeup :
    Result LockCommandResult → Lock → GroupEvent → Result (Unit {0}) × GroupEvent
unfolding version_of id_eq zero_id
after_wakeup (ok r) l g = (
  ok tt,
  record {
    lock = record g.lock { current_data = l.current_data };
    client_id = g.client_id;
    version_id = if not (id_eq r.lock_id zero_id) then version_of r.lock_id else g.version_id;
  },
)
after_wakeup (err e) l g = (err e, g)
after_wakeup panic l g = (panic, g)
after_wakeup out_of_fuel l g = (out_of_fuel, g)

-- What `wait` makes of the reply: a lock id other than the one waited with brings the version.
unfoldable pub after_wait :
    Result LockCommandResult → Lock → GroupEvent → Result (Unit {0}) × GroupEvent
unfolding version_of id_eq encode_group_event_lock_id
after_wait (ok r) l g = (
  ok tt,
  record {
    lock = record g.lock { current_data = l.current_data };
    client_id = g.client_id;
    version_id =
        if not (id_eq r.lock_id (encode_group_event_lock_id g.client_id g.version_id))
        then version_of r.lock_id
        else g.version_id;
  },
)
after_wait (err e) l g = (err e, g)
after_wait panic l g = (panic, g)
after_wait out_of_fuel l g = (out_of_fuel, g)

module _ {S : Type 0} (b : Backend S) where
  -- `GroupEvent::new`.
  unfoldable pub new_group_event : List ℕ → ℕ → ℕ → ℕ → ℕ → World S → GroupEvent
  unfolding with_lock_id by_version encode_group_event_lock_id
  new_group_event key client_id version_id timeout expired w = record {
    lock = by_version (
        with_lock_id b key (encode_group_event_lock_id client_id version_id) timeout expired 0 0 w);
    client_id = client_id;
    version_id = version_id;
  }

  -- A lock on the event's key, with the event's times.
  unfoldable pub group_lock : GroupEvent → Id16 → World S → Lock
  unfolding with_lock_id key_as_bytes value
  group_lock g lock_id w =
      with_lock_id b (key_as_bytes g.lock.lock_key) lock_id (value g.lock.timeout)
        (value g.lock.expired) 0 0 w

  unfoldable pub is_set : Act (GroupEvent × World S) Bool
  unfolding fresh_id with_lock_id acquire is_set_result key_as_bytes
  is_set (g, w) =
      let (id, w1) = fresh_id b w in
      let l = with_lock_id b (key_as_bytes g.lock.lock_key) id 0 0 0 0 w1 in
      let (r, (l', w2)) = acquire b (l, w1) in (is_set_result r, (g, w2))

  unfoldable pub set : Act (GroupEvent × World S) Unit
  unfolding group_lock release_head unlock_result zero_id
  set (g, w) =
      let (r, (l, w')) = release_head b none (group_lock g zero_id w, w) in
      (unlock_result r, (g, w'))

  -- `GroupEvent::clear`, under client 0.
  unfoldable pub clear : Act (GroupEvent × World S) Unit
  unfolding group_lock by_version update encode_group_event_lock_id
  clear (g, w) =
      let l = by_version (group_lock g (encode_group_event_lock_id 0 g.version_id) w) in
      let (r, (l', w')) = update b none (l, w) in (r, (g, w'))

  unfoldable pub wakeup : Option LockData → Act (GroupEvent × World S) Unit
  unfolding group_lock by_version release_head_to_lock_wait after_wakeup
  wakeup contents (g, w) =
      let (r, (l, w')) =
        release_head_to_lock_wait b contents (by_version (group_lock g zero_id w), w) in
      let (r', g') = after_wakeup r l g in (r', (g', w'))

  unfoldable pub wait : ℕ → Act (GroupEvent × World S) Unit
  unfolding with_lock_id by_version acquire wait_result after_wait key_as_bytes
  wait timeout (g, w) =
      let id = encode_group_event_lock_id g.client_id g.version_id in
      let l = by_version (with_lock_id b (key_as_bytes g.lock.lock_key) id timeout 0 0 0 w) in
      let (r, (l', w')) = acquire b (l, w) in
      let (r', g') = after_wait (wait_result r) l' g in (r', (g', w'))
