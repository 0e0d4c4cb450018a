-- ===== src/Primitive/Locks/Capacity.antt =====
-- blocking/primitives.rs: the commands of a `Semaphore`.
use ruslock.Prelude.{ℕ, ◌-◌, ◌≡◌, refl, ap, ◌∙◌, List, [], ◌∷◌, ◌++◌, none}
use mathlib.Core.List.{append_assoc}
use ruslock.Constants.{
  command_type_lock, command_type_unlock, unlock_flag_unlock_first_lock_when_unlocked,
}
use ruslock.Key.{new_key}
use ruslock.Protocol.Id.{zero_id}
use ruslock.Protocol.Command.{Command, LockCommand}
use ruslock.Primitive.World.{Backend, World, fresh_id}
use ruslock.Primitive.Lock.{
  Lock, lock_command, new_lock, with_lock_id, set_count, acquire, release_head,
}
use ruslock.Primitive.Lock.Commands.{request, acquire-OneMore, after_reply}
use ruslock.Primitive.Locks.{new_semaphore, semaphore_acquire, semaphore_release}

module _ {S : Type 0} (b : Backend S) where
  -- The request of `release_head` without data.
  abbrev head_request : Lock → World S → LockCommand
  head_request l w =
      lock_command l command_type_unlock unlock_flag_unlock_first_lock_when_unlocked w.db_id
        (fresh_id b w).0 zero_id none

  release_head-sent :
      (l : Lock) (w : World S)
      → (release_head b none (l, w)).1.1.sent ≡ w.sent ++ (Command.lock (head_request l w) ∷ [])
  unfolding release_head
  release_head-sent l w = rw after_reply refl

  -- What an acquire and a release of a semaphore of `count` slots have sent.
  pub record TakenAndFreed (key : List ℕ) (count : ℕ) (w w' : World S) : Type 0 where
    pub first : LockCommand
    pub second : LockCommand
    pub sent : w'.sent ≡ w.sent ++ (Command.lock first ∷ Command.lock second ∷ [])
    pub types :
        (first.command_type ≡ command_type_lock) × (second.command_type ≡ command_type_unlock)
    pub keys : (first.lock_key ≡ new_key b.md5 key) × (second.lock_key ≡ new_key b.md5 key)
    pub counts : (first.count ≡ count - 1) × (second.count ≡ count - 1)
    pub head :
        (second.lock_id ≡ zero_id) × (second.flag ≡ unlock_flag_unlock_first_lock_when_unlocked)

  -- An acquire and the release behind it of a semaphore with `count` slots, whatever the client
  -- answers to either, send a lock under the key with the count of further holders, one less than
  -- the slots, and an unlock of that key's first holder, under the zero id, with the same count.
  pub semaphore_release-semaphore_acquire :
      (key : List ℕ) (count timeout expired : ℕ) (w : World S)
      → TakenAndFreed key count w
          (semaphore_release b
            (semaphore_acquire b (new_semaphore b key count timeout expired, w)).1).1.1
  unfolding semaphore_release semaphore_acquire new_semaphore acquire lock_command set_count
      with_lock_id new_lock
  semaphore_release-semaphore_acquire key count timeout expired w =
      let (l, w1) = new_lock b key timeout expired w in
      let taken : Lock = set_count l (count - 1) in
      let one = acquire-OneMore b 0 none taken w1 in
      let w2 : World S = (acquire b (taken, w1)).1.1 in
      let freed : Lock = with_lock_id b key zero_id timeout expired (count - 1) 0 w2 in
      record {
        first = request b command_type_lock 0 none taken w1;
        second = head_request freed w2;
        sent =
            release_head-sent freed w2
            ∙ (ap (λ t. t ++ (Command.lock (head_request freed w2) ∷ [])) one.sent
                ∙ append_assoc w.sent _ _);
        types = (refl, refl);
        keys = (refl, refl);
        counts = (refl, refl);
        head = (refl, refl);
      }
