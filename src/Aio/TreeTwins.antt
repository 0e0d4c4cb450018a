-- ===== src/Aio/TreeTwins.antt =====
-- aio/primitives.rs against blocking/primitives.rs: `TreeLock` and `TreeLeafLock`, run to their ends.
use ruslock.Prelude.{ℕ, ◌≡◌, refl, ◌∙◌, Option, none, some}
use ruslock.Key.{Key16}
use ruslock.Error.{Result, ok, err, panic, out_of_fuel}
use ruslock.Protocol.Reply.{LockCommandResult}
use ruslock.Primitive.World.{Backend, World}
use ruslock.Primitive.Lock.{Lock}
use ruslock.Primitive.Tree.{TreeLock, TreeLeafLock}
use ruslock.Primitive
use ruslock.Aio.Future.{Future, ready, complete, await_inner}
use ruslock.Aio

module _ {S : Type 0} (b : Backend S) where
  release_check-complete :
      (c : Option Lock) (leaf : TreeLeafLock) (w : World S)
      → (next : World S → Future TreeLeafLock S LockCommandResult)
      → complete b (Aio.Tree.release_check b c leaf w next)
        ≡ complete b (next (Primitive.Tree.release_check b c w))
  unfolding complete await_inner Aio.Tree.release_check Primitive.Tree.release_check
  release_check-complete none leaf w next = refl
  release_check-complete (some l) leaf w next = refl

  after_leaf-complete :
      (c p : Option Lock) (r : Result LockCommandResult) (leaf : TreeLeafLock) (w : World S)
      → complete b (Aio.Tree.after_leaf b c p r leaf w)
        ≡ Primitive.Tree.after_leaf b c p r (leaf, w)
  unfolding complete await_inner Aio.Tree.after_leaf Primitive.Tree.after_leaf
  after_leaf-complete c p (ok a) leaf w = refl
  after_leaf-complete c p (err e) leaf w =
      release_check-complete c leaf w _ ∙ release_check-complete p leaf _ _
  after_leaf-complete c p panic leaf w = refl
  after_leaf-complete c p out_of_fuel leaf w = refl

  acquire_leaf-complete :
      (c p : Option Lock) (leaf : TreeLeafLock) (w : World S)
      → complete b (Aio.Tree.acquire_leaf b c p (leaf, w))
        ≡ Primitive.Tree.acquire_leaf b c p (leaf, w)
  unfolding complete await_inner Aio.Tree.acquire_leaf Primitive.Tree.acquire_leaf
  acquire_leaf-complete c p leaf w = after_leaf-complete c p _ _ _

  after_parent-complete :
      (c p : Lock) (r : Result (Unit {0})) (leaf : TreeLeafLock) (w : World S)
      → complete b (Aio.Tree.after_parent b c p r leaf w)
        ≡ Primitive.Tree.after_parent b c p r (leaf, w)
  unfolding complete await_inner Aio.Tree.after_parent Primitive.Tree.after_parent
  after_parent-complete c p (ok u) leaf w = acquire_leaf-complete (some c) (some p) leaf w
  after_parent-complete c p (err e) leaf w =
      release_check-complete (some c) leaf w (λ w'. ready (err e) leaf w')
  after_parent-complete c p panic leaf w = refl
  after_parent-complete c p out_of_fuel leaf w = refl

  check_parent-complete :
      (k : Key16) (c : Lock) (leaf : TreeLeafLock) (w : World S)
      → complete b (Aio.Tree.check_parent b k c (leaf, w))
        ≡ Primitive.Tree.check_parent b k c (leaf, w)
  unfolding complete await_inner Aio.Tree.check_parent Primitive.Tree.check_parent
  check_parent-complete k c leaf w = after_parent-complete c _ _ leaf _

  after_child-complete :
      (k : Key16) (c : Lock) (r : Result (Unit {0})) (leaf : TreeLeafLock) (w : World S)
      → complete b (Aio.Tree.after_child b k c r leaf w)
        ≡ Primitive.Tree.after_child b k c r (leaf, w)
  unfolding complete await_inner Aio.Tree.after_child Primitive.Tree.after_child
  after_child-complete k c (ok u) leaf w = check_parent-complete k c leaf w
  after_child-complete k c (err e) leaf w = refl
  after_child-complete k c panic leaf w = refl
  after_child-complete k c out_of_fuel leaf w = refl

  acquire_below-complete :
      (k : Option Key16) (leaf : TreeLeafLock) (w : World S)
      → complete b (Aio.Tree.acquire_below b k (leaf, w))
        ≡ Primitive.Tree.acquire_below b k (leaf, w)
  unfolding complete await_inner Aio.Tree.acquire_below Primitive.Tree.acquire_below
      Aio.Tree.check_child Primitive.Tree.check_child
  acquire_below-complete none leaf w = acquire_leaf-complete none none leaf w
  acquire_below-complete (some k) leaf w = after_child-complete k _ _ leaf _

  -- The results of the async and of the blocking methods of `TreeLock` and `TreeLeafLock`.
  abbrev pub TreeTwins : (t : ℕ) (s : TreeLock × World S) (l : TreeLeafLock × World S) → Type 0
  TreeTwins t s l =
      (complete b (Aio.Tree.tree_acquire b s) ≡ Primitive.Tree.tree_acquire b s)
      × (complete b (Aio.Tree.tree_release b s) ≡ Primitive.Tree.tree_release b s)
      × (complete b (Aio.Tree.tree_wait b t s) ≡ Primitive.Tree.tree_wait b t s)
      × (complete b (Aio.Tree.leaf_acquire b l) ≡ Primitive.Tree.leaf_acquire b l)
      × (complete b (Aio.Tree.leaf_release b l) ≡ Primitive.Tree.leaf_release b l)

  -- Every async method of `TreeLock` and `TreeLeafLock`, run to its end with no other task in between,
  -- does what the blocking method does, the release of the checks included: the same commands in the
  -- same order, the same result, lock and world.
  pub tree_methods-TreeTwins :
      (t : ℕ) (s : TreeLock × World S) (l : TreeLeafLock × World S) → TreeTwins t s l
  unfolding complete await_inner Aio.Tree.tree_acquire Primitive.Tree.tree_acquire
      Aio.Tree.tree_release Primitive.Tree.tree_release Aio.Tree.tree_wait Primitive.Tree.tree_wait
      Aio.Tree.leaf_acquire Primitive.Tree.leaf_acquire Aio.Tree.leaf_release
      Primitive.Tree.leaf_release
  tree_methods-TreeTwins t s (leaf, w) =
      (refl, refl, refl, acquire_below-complete leaf.tree_lock.parent_key leaf w, refl)
