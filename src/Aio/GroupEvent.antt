-- ===== src/Aio/GroupEvent.antt =====
-- aio/primitives.rs: the async methods of `GroupEvent`.
use ruslock.Prelude.{ℕ, Option, none, Bool}
use ruslock.Key.{key_as_bytes}
use ruslock.Protocol.Id.{zero_id}
use ruslock.Data.LockData.{LockData}
use ruslock.Primitive.World.{Backend, fresh_id}
use ruslock.Primitive.Lock.{with_lock_id}
use ruslock.Primitive.Event.{unlock_result, wait_result}
use ruslock.Primitive.GroupEvent.{
  GroupEvent, encode_group_event_lock_id, is_set_result, by_version, after_wakeup, after_wait,
  group_lock,
}
use ruslock.Aio.Future.{ready, Async, await_inner}
use ruslock.Aio.Lock.{acquire, update, release_head, release_head_to_lock_wait}

module _ {S : Type 0} (b : Backend S) where
  unfoldable pub is_set : Async GroupEvent S Bool
  unfolding fresh_id with_lock_id acquire is_set_result key_as_bytes
  is_set (g, w) =
      let (id, w1) = fresh_id b w in
      let l = with_lock_id b (key_as_bytes g.lock.lock_key) id 0 0 0 0 w1 in
      await_inner (λ l'. g) (acquire b (l, w1)) (λ r l' w2. ready (is_set_result r) g w2)

  unfoldable pub set : Async GroupEvent S (Unit {0})
  unfolding group_lock release_head unlock_result zero_id
  set (g, w) =
      await_inner (λ l. g) (release_head b none (group_lock b g zero_id w, w))
        (λ r l w'. ready (unlock_result r) g w')

  unfoldable pub clear : Async GroupEvent S (Unit {0})
  unfolding group_lock by_version update encode_group_event_lock_id
  clear (g, w) =
      let l = by_version (group_lock b g (encode_group_event_lock_id 0 g.version_id) w) in
      await_inner (λ l'. g) (update b none (l, w)) (λ r l' w'. ready r g w')

  unfoldable pub wakeup : Option LockData → Async GroupEvent S (Unit {0})
  unfolding group_lock by_version release_head_to_lock_wait after_wakeup
  wakeup contents (g, w) =
      await_inner (λ l. g)
        (release_head_to_lock_wait b contents (by_version (group_lock b g zero_id w), w))
        (λ r l w'. ready (after_wakeup r l g).0 (after_wakeup r l g).1 w')

  unfoldable pub wait : ℕ → Async GroupEvent S (Unit {0})
  unfolding with_lock_id by_version acquire wait_result after_wait key_as_bytes
  wait timeout (g, w) =
      let id = encode_group_event_lock_id g.client_id g.version_id in
      let l = by_version (with_lock_id b (key_as_bytes g.lock.lock_key) id timeout 0 0 0 w) in
      await_inner (λ l'. g) (acquire b (l, w))
        (λ r l' w'.
          ready (after_wait (wait_result r) l' g).0 (after_wait (wait_result r) l' g).1 w')
