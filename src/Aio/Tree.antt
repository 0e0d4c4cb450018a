-- ===== src/Aio/Tree.antt =====
-- aio/primitives.rs: the async methods of `TreeLock` and `TreeLeafLock`.
use ruslock.Prelude.{ℕ, Option, none, some}
use ruslock.Constants.{lock_flag_lock_tree_lock, unlock_flag_unlock_tree_lock}
use ruslock.Key.{Key16, key_as_bytes}
use ruslock.Error.{Result, ok, err, panic, out_of_fuel}
use ruslock.Protocol.Reply.{LockCommandResult}
use ruslock.Primitive.World.{Backend, World, fresh_id}
use ruslock.Primitive.Lock.{Lock, with_lock_id}
use ruslock.Primitive.Tree.{TreeLock, TreeLeafLock, tolerate_locked, check_lock}
use ruslock.Aio.Future.{Future, ready, Async, await_inner}
use ruslock.Aio.Lock.{acquire, acquire_with_flags, release, release_with_flags}

module _ {S : Type 0} (b : Backend S) where
  unfoldable pub tree_acquire : Async TreeLock S LockCommandResult
  unfolding acquire_with_flags
  tree_acquire (t, w) =
      await_inner (λ l. record t { lock = l })
        (acquire_with_flags b lock_flag_lock_tree_lock none (t.lock, w))
        (λ r l w'. ready r (record t { lock = l }) w')

  unfoldable pub tree_release : Async TreeLock S LockCommandResult
  unfolding release_with_flags
  tree_release (t, w) =
      await_inner (λ l. record t { lock = l })
        (release_with_flags b unlock_flag_unlock_tree_lock none (t.lock, w))
        (λ r l w'. ready r (record t { lock = l }) w')

  unfoldable pub tree_wait : ℕ → Async TreeLock S LockCommandResult
  unfolding fresh_id with_lock_id acquire key_as_bytes
  tree_wait timeout (t, w) =
      let (id, w1) = fresh_id b w in
      let l = with_lock_id b (key_as_bytes t.lock.lock_key) id timeout 0 0 0 w1 in
      await_inner (λ l'. t) (acquire b (l, w1)) (λ r l' w2. ready r t w2)

  -- `if let Some(mut lock) = check { let _ = lock.release().await; }` and what follows.
  unfoldable pub release_check :
      Option Lock
      → TreeLeafLock
      → World S
      → (World S → Future TreeLeafLock S LockCommandResult)
      → Future TreeLeafLock S LockCommandResult
  unfolding release
  release_check none leaf w next = next w
  release_check (some l) leaf w next =
      await_inner (λ l'. leaf) (release b (l, w)) (λ r l' w'. next w')

  -- The last `match` of `TreeLeafLock::acquire`.
  unfoldable pub after_leaf :
      Option Lock
      → Option Lock
      → Result LockCommandResult
      → TreeLeafLock
      → World S
      → Future TreeLeafLock S LockCommandResult
  unfolding release_check
  after_leaf child parent (ok a) leaf w = ready (ok a) leaf w
  after_leaf child parent (err e) leaf w =
      release_check child leaf w (λ w1. release_check parent leaf w1 (λ w2. ready (err e) leaf w2))
  after_leaf child parent panic leaf w = ready panic leaf w
  after_leaf child parent out_of_fuel leaf w = ready out_of_fuel leaf w

  unfoldable pub acquire_leaf : Option Lock → Option Lock → Async TreeLeafLock S LockCommandResult
  unfolding acquire after_leaf
  acquire_leaf child parent (leaf, w) =
      await_inner (λ l. record leaf { lock = l }) (acquire b (leaf.lock, w))
        (λ r l w'. after_leaf child parent r (record leaf { lock = l }) w')

  -- The `match` on the parent check.
  unfoldable pub after_parent :
      Lock
      → Lock
      → Result (Unit {0})
      → TreeLeafLock
      → World S
      → Future TreeLeafLock S LockCommandResult
  unfolding acquire_leaf release_check
  after_parent child parent (ok u) leaf w = acquire_leaf (some child) (some parent) (leaf, w)
  after_parent child parent (err e) leaf w =
      release_check (some child) leaf w (λ w'. ready (err e) leaf w')
  after_parent child parent panic leaf w = ready panic leaf w
  after_parent child parent out_of_fuel leaf w = ready out_of_fuel leaf w

  -- The parent check, under the child check `child`.
  unfoldable pub check_parent : Key16 → Lock → Async TreeLeafLock S LockCommandResult
  unfolding check_lock acquire tolerate_locked after_parent key_as_bytes
  check_parent parent_key child (leaf, w) =
      let l =
        check_lock b leaf (key_as_bytes parent_key) (key_as_bytes leaf.tree_lock.lock.lock_key) w in
      await_inner (λ l'. leaf) (acquire b (l, w))
        (λ r parent w'. after_parent child parent (tolerate_locked r) leaf w')

  -- The `match` on the child check.
  unfoldable pub after_child :
      Key16
      → Lock
      → Result (Unit {0})
      → TreeLeafLock
      → World S
      → Future TreeLeafLock S LockCommandResult
  unfolding check_parent
  after_child parent_key child (ok u) leaf w = check_parent parent_key child (leaf, w)
  after_child parent_key child (err e) leaf w = ready (err e) leaf w
  after_child parent_key child panic leaf w = ready panic leaf w
  after_child parent_key child out_of_fuel leaf w = ready out_of_fuel leaf w

  -- The child check.
  unfoldable pub check_child : Key16 → Async TreeLeafLock S LockCommandResult
  unfolding check_lock acquire_with_flags tolerate_locked after_child key_as_bytes
  check_child parent_key (leaf, w) =
      let l =
        check_lock b leaf (key_as_bytes leaf.tree_lock.lock.lock_key) (key_as_bytes parent_key) w in
      await_inner (λ l'. leaf) (acquire_with_flags b lock_flag_lock_tree_lock none (l, w))
        (λ r child w'. after_child parent_key child (tolerate_locked r) leaf w')

  -- `TreeLeafLock::acquire`, by the parent's key.
  unfoldable pub acquire_below : Option Key16 → Async TreeLeafLock S LockCommandResult
  unfolding check_child acquire_leaf
  acquire_below none s = acquire_leaf none none s
  acquire_below (some parent_key) s = check_child parent_key s

  -- `TreeLeafLock::acquire`.
  unfoldable pub leaf_acquire : Async TreeLeafLock S LockCommandResult
  unfolding acquire_below
  leaf_acquire (leaf, w) = acquire_below leaf.tree_lock.parent_key (leaf, w)

  -- `TreeLeafLock::release`.
  unfoldable pub leaf_release : Async TreeLeafLock S LockCommandResult
  unfolding release_with_flags
  leaf_release (leaf, w) =
      await_inner (λ l. record leaf { lock = l })
        (release_with_flags b unlock_flag_unlock_tree_lock none (leaf.lock, w))
        (λ r l w'. ready r (record leaf { lock = l }) w')
