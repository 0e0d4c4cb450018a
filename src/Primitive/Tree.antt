-- ===== src/Primitive/Tree.antt =====
-- blocking/primitives.rs: `TreeLock` and `TreeLeafLock`.
pub mod Checks
pub mod Rollback
use ruslock.Prelude.{ℕ, List, Option, none, some, Bool, true, false}
use ruslock.Constants.{
  timeout_flag_rcount_is_priority, lock_flag_lock_tree_lock, unlock_flag_unlock_tree_lock,
}
use ruslock.Key.{Key16, key_as_bytes, key_from_bytes}
use ruslock.Time.{merge_flags, value}
use ruslock.Error.{Result, ok, err, panic, out_of_fuel, lock_locked}
use ruslock.Protocol.Id.{Id16, id_from_bytes, id_as_bytes}
use ruslock.Protocol.Reply.{LockCommandResult}
use ruslock.Primitive.World.{Backend, World, Act, fresh_id}
use ruslock.Primitive.Lock.{
  Lock, set_count, set_r_count, with_lock_id, new_lock, acquire, acquire_with_flags, release,
  release_with_flags,
}

pub record TreeLock : Type 0 where
  pub lock : Lock
  pub parent_key : Option Key16

pub record TreeLeafLock : Type 0 where
  pub tree_lock : TreeLock
  pub lock : Lock

unfoldable pub is_root : TreeLock → Bool
is_root t = elim t.parent_key [ none ↦ true | some k ↦ false ]

-- `lock.timeout.merge_flags(RCOUNT_IS_PRIORITY)`.
unfoldable pub by_priority : Lock → Lock
unfolding merge_flags
by_priority l = record l { timeout = merge_flags l.timeout timeout_flag_rcount_is_priority }

-- The `match` on the two checks: a lock that is held already is good enough.
unfoldable pub tolerate_locked : Result LockCommandResult → Result (Unit {0})
tolerate_locked (ok r) = ok tt
tolerate_locked (err (lock_locked r)) = ok tt
tolerate_locked (err e) = err e
tolerate_locked panic = panic
tolerate_locked out_of_fuel = out_of_fuel

module _ {S : Type 0} (b : Backend S) where
  -- `TreeLock::new`.
  unfoldable pub new_tree : List ℕ → ℕ → ℕ → World S → TreeLock × World S
  unfolding new_lock set_count set_r_count by_priority
  new_tree key timeout expired w =
      let (l, w') = new_lock b key timeout expired w in
      (record { lock = by_priority (set_r_count (set_count l 0xffff) 1); parent_key = none }, w')

  unfoldable pub load_child : TreeLock → List ℕ → World S → TreeLock × World S
  unfolding new_tree value
  load_child t key w =
      let (child, w') = new_tree key (value t.lock.timeout) (value t.lock.expired) w in
      (record child { parent_key = some t.lock.lock_key }, w')

  unfoldable pub new_child : TreeLock → World S → TreeLock × World S
  unfolding load_child fresh_id key_as_bytes key_from_bytes id_as_bytes
  new_child t w =
      let (id, w') = fresh_id b w in
      load_child t (key_as_bytes (key_from_bytes (id_as_bytes id))) w'

  unfoldable pub new_child_with_key : TreeLock → List ℕ → World S → TreeLock × World S
  unfolding load_child
  new_child_with_key t key w = load_child t key w

  unfoldable pub load_leaf_lock : TreeLock → Id16 → World S → TreeLeafLock
  unfolding with_lock_id by_priority key_as_bytes value
  load_leaf_lock t lock_id w = record {
    tree_lock = t;
    lock = by_priority (
        with_lock_id b (key_as_bytes t.lock.lock_key) lock_id (value t.lock.timeout)
          (value t.lock.expired) 0xffff 1 w);
  }

  unfoldable pub new_leaf_lock : TreeLock → World S → TreeLeafLock × World S
  unfolding load_leaf_lock fresh_id
  new_leaf_lock t w = let (id, w') = fresh_id b w in (load_leaf_lock t id w', w')

  unfoldable pub tree_acquire : Act (TreeLock × World S) LockCommandResult
  unfolding acquire_with_flags
  tree_acquire (t, w) =
      let (r, (l, w')) = acquire_with_flags b lock_flag_lock_tree_lock none (t.lock, w) in
      (r, (record t { lock = l }, w'))

  unfoldable pub tree_release : Act (TreeLock × World S) LockCommandResult
  unfolding release_with_flags
  tree_release (t, w) =
      let (r, (l, w')) = release_with_flags b unlock_flag_unlock_tree_lock none (t.lock, w) in
      (r, (record t { lock = l }, w'))

  unfoldable pub tree_wait : ℕ → Act (TreeLock × World S) LockCommandResult
  unfolding fresh_id with_lock_id acquire key_as_bytes
  tree_wait timeout (t, w) =
      let (id, w1) = fresh_id b w in
      let l = with_lock_id b (key_as_bytes t.lock.lock_key) id timeout 0 0 0 w1 in
      let (r, (l', w2)) = acquire b (l, w1) in (r, (t, w2))

  -- A check lock of `TreeLeafLock::acquire`: on one key, under the id that is the other key.
  unfoldable pub check_lock : TreeLeafLock → List ℕ → List ℕ → World S → Lock
  unfolding with_lock_id by_priority id_from_bytes value
  check_lock leaf key id w =
      by_priority
        (with_lock_id b key (id_from_bytes id) 0 (value leaf.tree_lock.lock.expired) 0xffff 1 w)

  -- `if let Some(mut lock) = check { let _ = lock.release(); }`.
  unfoldable pub release_check : Option Lock → World S → World S
  unfolding release
  release_check none w = w
  release_check (some l) w = let (r, (l', w')) = release b (l, w) in w'

  -- The last `match` of `TreeLeafLock::acquire`: an error releases the checks.
  unfoldable pub after_leaf :
      Option Lock
      → Option Lock
      → Result LockCommandResult
      → Act (TreeLeafLock × World S) LockCommandResult
  unfolding release_check
  after_leaf child parent (ok a) s = (ok a, s)
  after_leaf child parent (err e) (leaf, w) =
      (err e, (leaf, release_check parent (release_check child w)))
  after_leaf child parent panic s = (panic, s)
  after_leaf child parent out_of_fuel s = (out_of_fuel, s)

  unfoldable pub acquire_leaf :
      Option Lock → Option Lock → Act (TreeLeafLock × World S) LockCommandResult
  unfolding acquire after_leaf
  acquire_leaf child parent (leaf, w) =
      let (r, (l, w')) = acquire b (leaf.lock, w) in
      after_leaf child parent r (record leaf { lock = l }, w')

  -- The `match` on the parent check.
  unfoldable pub after_parent :
      Lock → Lock → Result (Unit {0}) → Act (TreeLeafLock × World S) LockCommandResult
  unfolding acquire_leaf release_check
  after_parent child parent (ok u) s = acquire_leaf (some child) (some parent) s
  after_parent child parent (err e) (leaf, w) = (err e, (leaf, release_check (some child) w))
  after_parent child parent panic s = (panic, s)
  after_parent child parent out_of_fuel s = (out_of_fuel, s)

  -- The parent check, under the child check `child`.
  unfoldable pub check_parent : Key16 → Lock → Act (TreeLeafLock × World S) LockCommandResult
  unfolding check_lock acquire tolerate_locked after_parent key_as_bytes
  check_parent parent_key child (leaf, w) =
      let l =
        check_lock leaf (key_as_bytes parent_key) (key_as_bytes leaf.tree_lock.lock.lock_key) w in
      let (r, (parent, w')) = acquire b (l, w) in
      after_parent child parent (tolerate_locked r) (leaf, w')

  -- The `match` on the child check.
  unfoldable pub after_child :
      Key16 → Lock → Result (Unit {0}) → Act (TreeLeafLock × World S) LockCommandResult
  unfolding check_parent
  after_child parent_key child (ok u) s = check_parent parent_key child s
  after_child parent_key child (err e) s = (err e, s)
  after_child parent_key child panic s = (panic, s)
  after_child parent_key child out_of_fuel s = (out_of_fuel, s)

  -- The child check.
  unfoldable pub check_child : Key16 → Act (TreeLeafLock × World S) LockCommandResult
  unfolding check_lock acquire_with_flags tolerate_locked after_child key_as_bytes
  check_child parent_key (leaf, w) =
      let l =
        check_lock leaf (key_as_bytes leaf.tree_lock.lock.lock_key) (key_as_bytes parent_key) w in
      let (r, (child, w')) = acquire_with_flags b lock_flag_lock_tree_lock none (l, w) in
      after_child parent_key child (tolerate_locked r) (leaf, w')

  -- `TreeLeafLock::acquire`, by the parent's key.
  unfoldable pub acquire_below : Option Key16 → Act (TreeLeafLock × World S) LockCommandResult
  unfolding check_child acquire_leaf
  acquire_below none s = acquire_leaf none none s
  acquire_below (some parent_key) s = check_child parent_key s

  -- `TreeLeafLock::acquire`.
  unfoldable pub leaf_acquire : Act (TreeLeafLock × World S) LockCommandResult
  unfolding acquire_below
  leaf_acquire (leaf, w) = acquire_below leaf.tree_lock.parent_key (leaf, w)

  -- `TreeLeafLock::release`.
  unfoldable pub leaf_release : Act (TreeLeafLock × World S) LockCommandResult
  unfolding release_with_flags
  leaf_release (leaf, w) =
      let (r, (l, w')) = release_with_flags b unlock_flag_unlock_tree_lock none (leaf.lock, w) in
      (r, (record leaf { lock = l }, w'))
