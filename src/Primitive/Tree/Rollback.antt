-- ===== src/Primitive/Tree/Rollback.antt =====
-- blocking/primitives.rs: the commands of `TreeLeafLock::acquire`, and what is taken back.
use ruslock.Prelude.{
  ℕ, ◌≡◌, ◌⊎◌, inl, inr, refl, sym, ap, ◌∙◌, List, [], ◌∷◌, ◌++◌, none, some, map,
}
use mathlib.Core.Path.{subst}
use mathlib.Core.List.{append_assoc, map-append}
use ruslock.Constants.{command_type_lock, command_type_unlock, lock_flag_lock_tree_lock}
use ruslock.Key.{Key16, new_key, key_as_bytes}
use ruslock.Error.{Result, ok, err, panic, out_of_fuel, Returns, SlockError}
use ruslock.Primitive.Tree.Checks.{Passes, Refuses, Tolerated, tolerate_locked-Tolerated}
use ruslock.Protocol.Id.{Id16, id_from_bytes}
use ruslock.Protocol.Command.{Command, LockCommand}
use ruslock.Protocol.Reply.{LockCommandResult}
use ruslock.Primitive.World.{Backend, World}
use ruslock.Primitive.Lock.{Lock, lock_command, with_lock_id, acquire, acquire_with_flags, release}
use ruslock.Primitive.Lock.Commands.{request, acquire-OneMore, release-OneMore, after_reply_lock}
use ruslock.Primitive.Tree.{
  TreeLeafLock, by_priority, check_lock, release_check, after_leaf, acquire_leaf, after_parent,
  check_parent, after_child, check_child, acquire_below, leaf_acquire,
}

-- What a command locks or unlocks: its type, its key and its id.
pub record Call : Type 0 where
  pub command_type : ℕ
  pub lock_key : Key16
  pub lock_id : Id16

-- The call of a lock command; the others are not calls of a lock.
abbrev call : LockCommand → Call
call c = record { command_type = c.command_type; lock_key = c.lock_key; lock_id = c.lock_id }

abbrev pub locked : Key16 → Id16 → Call
locked key id = record { command_type = command_type_lock; lock_key = key; lock_id = id }

abbrev pub unlocked : Key16 → Id16 → Call
unlocked key id = record { command_type = command_type_unlock; lock_key = key; lock_id = id }

module _ {S : Type 0} where
  -- Between two worlds lock commands were sent that make these calls.
  pub record Trace (w w' : World S) (calls : List Call) : Type 0 where
    pub commands : List LockCommand
    pub sent : w'.sent ≡ w.sent ++ map Command.lock commands
    pub calls_of : map call commands ≡ calls

  join :
      {w w1 w2 : World S} {xs ys : List Call}
      → Trace w w1 xs
      → Trace w1 w2 ys
      → Trace w w2 (xs ++ ys)
  join {w} s t = record {
    commands = s.commands ++ t.commands;
    sent =
        t.sent
        ∙ rw (s.sent, map-append Command.lock s.commands t.commands)
            (append_assoc w.sent (map Command.lock s.commands) (map Command.lock t.commands));
    calls_of = map-append call s.commands t.commands ∙ rw (s.calls_of, t.calls_of) refl;
  }

module _ {S : Type 0} (b : Backend S) where
  lock-Trace :
      (flag : ℕ) (l : Lock) (w : World S) (key : Key16) (id : Id16)
      → l.lock_key ≡ key
      → l.lock_id ≡ id
      → Trace w (acquire_with_flags b flag none (l, w)).1.1 (locked key id ∷ [])
  unfolding lock_command
  lock-Trace flag l w key id same_key same_id = record {
    commands = request b command_type_lock flag none l w ∷ [];
    sent = (acquire-OneMore b flag none l w).sent;
    calls_of = rw (same_key, same_id) refl;
  }

  unlock-Trace :
      (l : Lock) (w : World S) (key : Key16) (id : Id16)
      → l.lock_key ≡ key
      → l.lock_id ≡ id
      → Trace w (release_check b (some l) w) (unlocked key id ∷ [])
  unfolding release_check release lock_command
  unlock-Trace l w key id same_key same_id = record {
    commands = request b command_type_unlock 0 none l w ∷ [];
    sent = (release-OneMore b 0 none l w).sent;
    calls_of = rw (same_key, same_id) refl;
  }

  kept :
      (flag : ℕ) (l : Lock) (w : World S)
      → ((acquire_with_flags b flag none (l, w)).1.0.lock_id ≡ l.lock_id)
        × ((acquire_with_flags b flag none (l, w)).1.0.lock_key ≡ l.lock_key)
  unfolding acquire_with_flags
  kept flag l w = after_reply_lock b _ l _

  -- How `TreeLeafLock::acquire` ended, by what its child check, its parent check and its leaf
  -- returned, and the calls it made for it, each check and the leaf by its key and its id.
  pub data LeafRun (child parent leaf : Key16 × Id16) (c p l : Result LockCommandResult)
      (w w' : World S) (r : Result LockCommandResult) : Type 0 where
    acquired :
        (a : LockCommandResult)
        → Passes c
        → Passes p
        → l ≡ ok a
        → r ≡ ok a
        → Trace w w' (locked child.0 child.1 ∷ locked parent.0 parent.1 ∷ locked leaf.0 leaf.1 ∷ [])
        → LeafRun child parent leaf c p l w w' r
    leaf_refused :
        (e : SlockError)
        → Passes c
        → Passes p
        → l ≡ err e
        → r ≡ err e
        → Trace w w' (
            locked child.0 child.1
            ∷ locked parent.0 parent.1
            ∷ locked leaf.0 leaf.1
            ∷ unlocked child.0 child.1
            ∷ unlocked parent.0 parent.1
            ∷ [])
        → LeafRun child parent leaf c p l w w' r
    parent_refused :
        (e : SlockError)
        → Passes c
        → Refuses p e
        → r ≡ err e
        → Trace w w'
            (locked child.0 child.1 ∷ locked parent.0 parent.1 ∷ unlocked child.0 child.1 ∷ [])
        → LeafRun child parent leaf c p l w w' r
    child_refused :
        (e : SlockError)
        → Refuses c e
        → r ≡ err e
        → Trace w w' (locked child.0 child.1 ∷ [])
        → LeafRun child parent leaf c p l w w' r
    crashed :
        ¬ Returns c ⊎ (Passes c × (¬ Returns p ⊎ (Passes p × ¬ Returns l)))
        → ¬ Returns r
        → LeafRun child parent leaf c p l w w' r

  module _ (child parent : Lock) (ck pk : Key16 × Id16) (child_key : child.lock_key ≡ ck.0)
      (child_id : child.lock_id ≡ ck.1) (parent_key : parent.lock_key ≡ pk.0)
      (parent_id : parent.lock_id ≡ pk.1) (c p : Result LockCommandResult) (child_passes : Passes c)
      (w0 : World S) where
    after_leaf-run :
        (lk : Key16 × Id16) (l : Result LockCommandResult) (leaf : TreeLeafLock) (w : World S)
        → Passes p
        → Trace w0 w (locked ck.0 ck.1 ∷ locked pk.0 pk.1 ∷ locked lk.0 lk.1 ∷ [])
        → LeafRun ck pk lk c p l w0
            (after_leaf b (some child) (some parent) l (leaf, w)).1.1
            (after_leaf b (some child) (some parent) l (leaf, w)).0
    unfolding after_leaf
    after_leaf-run lk (ok a) leaf w passes t = acquired a child_passes passes refl refl t
    after_leaf-run lk (err e) leaf w passes t = leaf_refused e child_passes passes refl refl (
        join (join t (unlock-Trace child w ck.0 ck.1 child_key child_id))
          (unlock-Trace parent (release_check b (some child) w) pk.0 pk.1 parent_key parent_id))
    after_leaf-run lk panic leaf w passes t =
        crashed (inr (child_passes, inr (passes, λ h. h))) (λ h. h)
    after_leaf-run lk out_of_fuel leaf w passes t =
        crashed (inr (child_passes, inr (passes, λ h. h))) (λ h. h)

    after_parent-run :
        (r : Result (Unit {0})) (leaf : TreeLeafLock) (w : World S)
        → Tolerated p r
        → Trace w0 w (locked ck.0 ck.1 ∷ locked pk.0 pk.1 ∷ [])
        → LeafRun ck pk
            (leaf.lock.lock_key, leaf.lock.lock_id)
            c
            p
            (acquire b (leaf.lock, w)).0
            w0
            (after_parent b child parent r (leaf, w)).1.1
            (after_parent b child parent r (leaf, w)).0
    unfolding after_parent acquire_leaf acquire Tolerated
    after_parent-run (ok u) leaf w passes t =
        after_leaf-run (leaf.lock.lock_key, leaf.lock.lock_id) _ _ _ passes
          (join t (lock-Trace 0 leaf.lock w _ _ refl refl))
    after_parent-run (err e) leaf w refuses t =
        parent_refused e child_passes refuses refl
          (join t (unlock-Trace child w ck.0 ck.1 child_key child_id))
    after_parent-run panic leaf w crashes t = crashed (inr (child_passes, inl crashes)) (λ h. h)
    after_parent-run out_of_fuel leaf w crashes t =
        crashed (inr (child_passes, inl crashes)) (λ h. h)

  -- The key and the id of a check lock.
  abbrev pub check_on : Key16 → Key16 → Key16 × Id16
  check_on key other = (new_key b.md5 (key_as_bytes key), id_from_bytes (key_as_bytes other))

  check_lock-key :
      (leaf : TreeLeafLock) (key other : Key16) (w : World S)
      → ((check_lock b leaf (key_as_bytes key) (key_as_bytes other) w).lock_key
          ≡ (check_on key other).0)
        × ((check_lock b leaf (key_as_bytes key) (key_as_bytes other) w).lock_id
            ≡ (check_on key other).1)
  unfolding check_lock by_priority with_lock_id
  check_lock-key leaf key other w = (refl, refl)

  -- The check locks of `TreeLeafLock::acquire`.
  abbrev pub child_check : TreeLeafLock → Key16 → World S → Lock
  child_check leaf parent_key w =
      check_lock b leaf (key_as_bytes leaf.tree_lock.lock.lock_key) (key_as_bytes parent_key) w

  abbrev pub parent_check : TreeLeafLock → Key16 → World S → Lock
  parent_check leaf parent_key w =
      check_lock b leaf (key_as_bytes parent_key) (key_as_bytes leaf.tree_lock.lock.lock_key) w

  -- The run of `TreeLeafLock::acquire` from `w`, whose child check returned `c` and left the world
  -- `w1`: the parent check follows in `w1`, and the leaf in the world that this leaves.
  abbrev pub RunFrom :
      TreeLeafLock
      → Key16
      → Result LockCommandResult
      → World S
      → World S
      → Result LockCommandResult × (TreeLeafLock × World S)
      → Type 0
  RunFrom leaf parent_key c w1 w run =
      let (p, (l, w2)) = acquire b (parent_check leaf parent_key w1, w1) in
      LeafRun (check_on leaf.tree_lock.lock.lock_key parent_key)
        (check_on parent_key leaf.tree_lock.lock.lock_key) (leaf.lock.lock_key, leaf.lock.lock_id) c
        p (acquire b (leaf.lock, w2)).0 w run.1.1 run.0

  after_child-run :
      (parent_key : Key16) (leaf : TreeLeafLock) (child : Lock) (w0 w : World S)
      (c : Result LockCommandResult) (r : Result (Unit {0}))
      → Tolerated c r
      → child.lock_key ≡ (check_on leaf.tree_lock.lock.lock_key parent_key).0
      → child.lock_id ≡ (check_on leaf.tree_lock.lock.lock_key parent_key).1
      → Trace w0 w (
          locked
            (check_on leaf.tree_lock.lock.lock_key parent_key).0
            (check_on leaf.tree_lock.lock.lock_key parent_key).1
          ∷ [])
      → RunFrom leaf parent_key c w w0 (after_child b parent_key child r (leaf, w))
  unfolding after_child check_parent acquire Tolerated
  after_child-run parent_key leaf child w0 w c (ok u) passes ke ie t =
      let own : Key16 = leaf.tree_lock.lock.lock_key in
      let l : Lock = parent_check leaf parent_key w in
      let (k, i) = check_lock-key leaf parent_key own w in
      let (id_kept, key_kept) = kept 0 l w in
      after_parent-run child _ (check_on own parent_key) (check_on parent_key own) ke ie
        (key_kept ∙ k) (id_kept ∙ i) c _ passes w0 _ leaf _ (tolerate_locked-Tolerated _)
        (join t (lock-Trace 0 l w _ _ k i))
  after_child-run parent_key leaf child w0 w c (err e) refuses ke ie t =
      child_refused e refuses refl t
  after_child-run parent_key leaf child w0 w c panic crashes ke ie t =
      crashed (inl crashes) (λ h. h)
  after_child-run parent_key leaf child w0 w c out_of_fuel crashes ke ie t =
      crashed (inl crashes) (λ h. h)

  -- The same from the child check on.
  abbrev pub RunBelow :
      TreeLeafLock → Key16 → World S → Result LockCommandResult × (TreeLeafLock × World S) → Type 0
  RunBelow leaf parent_key w run =
      let (c, (l, w1)) =
        acquire_with_flags b lock_flag_lock_tree_lock none (child_check leaf parent_key w, w) in
      RunFrom leaf parent_key c w1 w run

  check_child-run :
      (leaf : TreeLeafLock) (parent_key : Key16) (w : World S)
      → RunBelow leaf parent_key w (check_child b parent_key (leaf, w))
  unfolding check_child
  check_child-run leaf parent_key w =
      let own : Key16 = leaf.tree_lock.lock.lock_key in
      let l : Lock = child_check leaf parent_key w in
      let (k, i) = check_lock-key leaf own parent_key w in
      let (id_kept, key_kept) = kept lock_flag_lock_tree_lock l w in
      after_child-run parent_key leaf _ w _ _ _ (tolerate_locked-Tolerated _) (key_kept ∙ k)
        (id_kept ∙ i) (lock-Trace lock_flag_lock_tree_lock l w _ _ k i)

  -- `TreeLeafLock::acquire` below a parent checks the tree's own key under the parent's id, then the
  -- parent's key under the tree's id, then locks the leaf. A check passes exactly where it was granted
  -- or found the lock held already. The first check that is refused, or the leaf's refusal, ends it with
  -- that error, and gives up the checks made before, the child's first, also those that found the lock
  -- held already, and never the leaf; it is a success exactly where both checks pass and the leaf is
  -- granted. Only where one of the three does not return, it does not.
  pub leaf_acquire-LeafRun :
      (leaf : TreeLeafLock) (parent_key : Key16) (w : World S)
      → leaf.tree_lock.parent_key ≡ some parent_key
      → RunBelow leaf parent_key w (leaf_acquire b (leaf, w))
  unfolding leaf_acquire acquire_below
  leaf_acquire-LeafRun leaf parent_key w below =
      subst (RunBelow leaf parent_key w) (ap (λ p. acquire_below b p (leaf, w)) (sym below))
        (check_child-run leaf parent_key w)
