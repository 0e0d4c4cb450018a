-- ===== src/Aio/TreeDropped.antt =====
-- aio/primitives.rs: what is left of a tree lock and of a leaf when a future of its async method is
-- dropped.
use ruslock.Prelude.{ℕ, ◌≡◌, refl, ap, Option, none, some}
use ruslock.Key.{Key16}
use ruslock.Error.{Result, ok, err, panic, out_of_fuel}
use ruslock.Data.Raw.{LockResultData}
use ruslock.Protocol.Reply.{LockCommandResult}
use ruslock.Primitive.World.{Backend, World, continue}
use ruslock.Primitive.Lock.{Lock, apply_result, expect_lock}
use ruslock.Primitive.Tree.{TreeLock, TreeLeafLock}
use ruslock.Aio.Future.{Future, ready, await_inner, AtAwaits}
use ruslock.Aio.Dropped.{IsUntouched}
use ruslock.Aio

-- `o` is the leaf, up to the data of its lock.
abbrev pub HasOtherData : TreeLeafLock → TreeLeafLock → Type 0
HasOtherData leaf o =
    (d : Option LockResultData) × (o ≡ record leaf { lock = record leaf.lock { current_data = d } })

-- Wherever the future waits, the leaf is as it was, up to the data of its lock.
abbrev pub IsLeft : {S A : Type 0} → TreeLeafLock → Future TreeLeafLock S A → Type 0
IsLeft leaf f = AtAwaits (λ c o. HasOtherData leaf o) f

same_data : (leaf : TreeLeafLock) → HasOtherData leaf leaf
same_data leaf = (leaf.lock.current_data, refl)

apply_result-data :
    {S : Type 0} (r : Result LockCommandResult) (l : Lock) (w : World S)
    → (d : Option LockResultData) × ((continue r apply_result (l, w)).1.0
        ≡ record l { current_data = d })
unfolding apply_result
apply_result-data (ok r) l w = (r.contents, refl)
apply_result-data (err e) l w = (l.current_data, refl)
apply_result-data panic l w = (l.current_data, refl)
apply_result-data out_of_fuel l w = (l.current_data, refl)

module _ {S : Type 0} (b : Backend S) (leaf : TreeLeafLock) where
  release_check-IsLeft :
      (c : Option Lock) (o : TreeLeafLock) (w : World S)
      → (next : World S → Future TreeLeafLock S LockCommandResult) → HasOtherData leaf o
      → ((w' : World S) → IsLeft leaf (next w'))
      → IsLeft leaf (Aio.Tree.release_check b c o w next)
  unfolding AtAwaits await_inner Aio.Tree.release_check
  release_check-IsLeft none o w next h k = k w
  release_check-IsLeft (some l) o w next h k = (h, λ r w'. k _)

  after_leaf-IsLeft :
      (c p : Option Lock) (r : Result LockCommandResult) (o : TreeLeafLock) (w : World S)
      → HasOtherData leaf o
      → IsLeft leaf (Aio.Tree.after_leaf b c p r o w)
  unfolding AtAwaits Aio.Tree.after_leaf
  after_leaf-IsLeft c p (ok a) o w h = tt
  after_leaf-IsLeft c p (err e) o w h =
      release_check-IsLeft c o w (λ w1. Aio.Tree.release_check b p o w1 (λ w2. ready (err e) o w2))
        h (λ w1. release_check-IsLeft p o w1 (λ w2. ready (err e) o w2) h (λ w2. tt))
  after_leaf-IsLeft c p panic o w h = tt
  after_leaf-IsLeft c p out_of_fuel o w h = tt

  acquire_leaf-IsLeft :
      (c p : Option Lock) (w : World S) → IsLeft leaf (Aio.Tree.acquire_leaf b c p (leaf, w))
  unfolding AtAwaits await_inner Aio.Tree.acquire_leaf
  acquire_leaf-IsLeft c p w = (
    same_data leaf,
    λ r w'.
        let (d, same) = apply_result-data (expect_lock r) leaf.lock w' in
        after_leaf-IsLeft c p _ _ _ (d, ap (λ l. record leaf { lock = l }) same),
  )

  after_parent-IsLeft :
      (c p : Lock) (r : Result (Unit {0})) (w : World S)
      → IsLeft leaf (Aio.Tree.after_parent b c p r leaf w)
  unfolding AtAwaits Aio.Tree.after_parent
  after_parent-IsLeft c p (ok u) w = acquire_leaf-IsLeft (some c) (some p) w
  after_parent-IsLeft c p (err e) w =
      release_check-IsLeft (some c) leaf w (λ w'. ready (err e) leaf w') (same_data leaf) (λ w'. tt)
  after_parent-IsLeft c p panic w = tt
  after_parent-IsLeft c p out_of_fuel w = tt

  after_child-IsLeft :
      (k : Key16) (c : Lock) (r : Result (Unit {0})) (w : World S)
      → IsLeft leaf (Aio.Tree.after_child b k c r leaf w)
  unfolding AtAwaits await_inner Aio.Tree.after_child Aio.Tree.check_parent
  after_child-IsLeft k c (ok u) w = (same_data leaf, λ r w'. after_parent-IsLeft c _ _ _)
  after_child-IsLeft k c (err e) w = tt
  after_child-IsLeft k c panic w = tt
  after_child-IsLeft k c out_of_fuel w = tt

  acquire_below-IsLeft :
      (k : Option Key16) (w : World S) → IsLeft leaf (Aio.Tree.acquire_below b k (leaf, w))
  unfolding AtAwaits await_inner Aio.Tree.acquire_below Aio.Tree.check_child
  acquire_below-IsLeft none w = acquire_leaf-IsLeft none none w
  acquire_below-IsLeft (some k) w = (same_data leaf, λ r w'. after_child-IsLeft k _ _ _)

module _ {S : Type 0} (b : Backend S) where
  -- The lock or leaf is as it was, up to the data of a leaf, wherever a method waits.
  abbrev pub TreeUntouched : (t : ℕ) (s : TreeLock × World S) (l : TreeLeafLock × World S) → Type 0
  TreeUntouched t s l =
      IsUntouched s.0 (Aio.Tree.tree_acquire b s)
      × IsUntouched s.0 (Aio.Tree.tree_release b s)
      × IsUntouched s.0 (Aio.Tree.tree_wait b t s)
      × IsLeft l.0 (Aio.Tree.leaf_acquire b l)
      × IsUntouched l.0 (Aio.Tree.leaf_release b l)

  -- A future of any async method of `TreeLock` and of the release of a leaf, dropped wherever it
  -- waits, leaves the lock as it was; one of the acquire of a leaf, which may wait up to five times,
  -- leaves the leaf as it was up to the data of its lock.
  pub tree_methods-IsUntouched :
      (t : ℕ) (s : TreeLock × World S) (l : TreeLeafLock × World S) → TreeUntouched t s l
  unfolding AtAwaits await_inner Aio.Tree.tree_acquire Aio.Tree.tree_release Aio.Tree.tree_wait
      Aio.Tree.leaf_acquire Aio.Tree.leaf_release
  tree_methods-IsUntouched t s (leaf, w) = (
    (refl, λ r w'. tt),
    (refl, λ r w'. tt),
    (refl, λ r w'. tt),
    acquire_below-IsLeft b leaf leaf.tree_lock.parent_key w,
    (refl, λ r w'. tt),
  )
