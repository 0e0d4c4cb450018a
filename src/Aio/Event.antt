-- ===== src/Aio/Event.antt =====
-- aio/primitives.rs: the async methods of `Event`.
use ruslock.Prelude.{ℕ, Option, none, Bool, if◌then◌else◌}
use ruslock.Key.{key_as_bytes}
use ruslock.Data.LockData.{LockData}
use ruslock.Primitive.World.{Backend}
use ruslock.Primitive.Lock.{new_lock}
use ruslock.Primitive.Event.{
  Event, is_set_result, unlock_result, wait_result, forget, event_lock, reversed,
}
use ruslock.Aio.Future.{ready, Async, await_inner}
use ruslock.Aio.Lock.{acquire, release, release_with_flags, update}

module _ {S : Type 0} (b : Backend S) where
  unfoldable pub is_set : Async Event S Bool
  unfolding new_lock reversed acquire is_set_result key_as_bytes
  is_set (e, w) =
      let (l, w1) = new_lock b (key_as_bytes e.lock.lock_key) 0 0 w in
      await_inner (λ l'. e) (acquire b (reversed b e 0 l, w1))
        (λ r l' w2. ready (is_set_result r) e w2)

  -- `Event::set_with_data`.
  unfoldable pub set_with_data : Option LockData → Async Event S (Unit {0})
  unfolding event_lock release_with_flags unlock_result update
  set_with_data contents (e, w) =
      if e.default_set
      then await_inner (λ l. e) (release_with_flags b 0 contents (event_lock b e 0 w, w))
          (λ r l w'. ready (unlock_result r) e w')
      else await_inner (λ l. e) (update b contents (event_lock b e 1 w, w)) (λ r l w'. ready r e w')

  unfoldable pub set : Async Event S (Unit {0})
  unfolding set_with_data
  set = set_with_data none

  unfoldable pub clear : Async Event S (Unit {0})
  unfolding event_lock release unlock_result update
  clear (e, w) =
      if e.default_set
      then await_inner (λ l. e) (update b none (event_lock b e 0 w, w)) (λ r l w'. ready r e w')
      else await_inner (λ l. e) (release b (event_lock b e 1 w, w))
          (λ r l w'. ready (unlock_result r) e w')

  -- `Event::wait`.
  unfoldable pub wait : ℕ → Async Event S (Unit {0})
  unfolding new_lock reversed acquire forget wait_result key_as_bytes
  wait timeout (e, w) =
      let (l, w1) = new_lock b (key_as_bytes e.lock.lock_key) timeout 0 w in
      await_inner (λ l'. e) (acquire b (reversed b e timeout l, w1))
        (λ r l' w2.
          ready (wait_result (forget r))
            (record e { lock = record e.lock { current_data = l'.current_data } }) w2)
