-- ===== src/Primitive/Locks/Readers.antt =====
-- blocking/primitives.rs: the stack of readers of a `ReadWriteLock`.
use ruslock.Prelude.{◌≡◌, ◌≢◌, refl, ap, List, [], ◌∷◌, ◌++◌, none, some}
use ruslock.Error.{Result, ok, err, panic, out_of_fuel, lock_data, no_read_lock}
use ruslock.Protocol.Reply.{LockCommandResult}
use ruslock.Primitive.World.{Backend, World}
use ruslock.Primitive.Lock.{Lock, new_lock, set_count, acquire, release}
use ruslock.Primitive.Lock.Commands.{LockedThenUnlocked, release-acquire}
use ruslock.Primitive.Locks.{ReadWriteLock, pop, keep_reader, acquire_read, release_read}

pub pop-append {ℓ} : {A : Type ℓ} (xs : List A) (x : A) → pop (xs ++ (x ∷ [])) ≡ some (xs, x)
unfolding pop
pop-append [] x = refl
pop-append (y ∷ ys) x = rw (pop-append ys x) refl

module _ {S : Type 0} (b : Backend S) where
  -- The lock that `acquire_read` makes, and the world behind it.
  abbrev pub reader : ReadWriteLock → World S → Lock × World S
  reader p w = let (l, w') = new_lock b p.key p.timeout p.expired w in (set_count l 0xffff, w')

  -- What `acquire_read` did: it kept the one lock it acquired, or it changed nothing.
  pub data Read (p : ReadWriteLock) (w : World S) (p' : ReadWriteLock)
      (r : Result LockCommandResult) : Type 0 where
    kept :
        (a : LockCommandResult)
        → r ≡ ok a
        → p' ≡ record p { read_locks = p.read_locks ++ ((acquire b (reader p w)).1.0 ∷ []) }
        → Read p w p' r
    refused : ((a : LockCommandResult) → r ≢ ok a) → p' ≡ p → Read p w p' r

  pub acquire_read-Read :
      (p : ReadWriteLock) (w : World S)
      → Read p w (acquire_read b (p, w)).1.0 (acquire_read b (p, w)).0
  unfolding acquire_read keep_reader
  acquire_read-Read p w = by_reply (acquire b (reader p w)).0 refl
    where
      by_reply :
          (r : Result LockCommandResult)
          → (acquire b (reader p w)).0 ≡ r
          → Read p w
              (keep_reader (acquire b (reader p w)).0 (acquire b (reader p w)).1.0 p)
              (acquire b (reader p w)).0
      by_reply (ok a) e = rw e (kept a refl refl)
      by_reply (err x) e = rw e (refused (λ a h. cc) refl)
      by_reply panic e = rw e (refused (λ a h. cc) refl)
      by_reply out_of_fuel e = rw e (refused (λ a h. cc) refl)

  release_read-keep_reader :
      (r : Result LockCommandResult) (l : Lock) (p : ReadWriteLock) (w : World S)
      (a : LockCommandResult)
      → r ≡ ok a
      → ((release_read b (keep_reader r l p, w)).1.0 ≡ p)
        × ((release_read b (keep_reader r l p, w)).1.1 ≡ (release b (l, w)).1.1)
  unfolding release_read keep_reader
  release_read-keep_reader (ok a') l p w a e =
      rw (release_read, pop-append p.read_locks l) (refl, refl)
  release_read-keep_reader (err x) l p w a e = cc
  release_read-keep_reader panic l p w a e = cc
  release_read-keep_reader out_of_fuel l p w a e = cc

  -- An `acquire_read` that succeeds and the `release_read` behind it, whatever the client answers to
  -- that: the readers are those from before, and the two have locked and unlocked one and the same
  -- new lock, the newest, under its key and its id and with two different request ids. design.md 15.4
  -- says that `release_read` releases the earliest read lock, which is another one where there were
  -- readers before.
  pub release_read-acquire_read :
      (p : ReadWriteLock) (w : World S) (a : LockCommandResult)
      → (acquire_read b (p, w)).0 ≡ ok a
      → ((release_read b (acquire_read b (p, w)).1).1.0 ≡ p)
        × LockedThenUnlocked b
            (reader p w).0
            (reader p w).1
            (release_read b (acquire_read b (p, w)).1).1.1
  unfolding acquire_read
  release_read-acquire_read p w a granted =
      let (r, (l, w')) = acquire b (reader p w) in
      let (same, last) = release_read-keep_reader r l p w' a granted in
      (same, rw last (release-acquire b (reader p w).0 (reader p w).1))

  -- What `release_read` did: it sent nothing where there is no reader; else it dropped the reader
  -- that came last and released it, also when the release fails.
  pub data Unread (p : ReadWriteLock) (w : World S) (p' : ReadWriteLock) (w' : World S)
      (r : Result LockCommandResult) : Type 0 where
    no_reader :
        p.read_locks ≡ [] → p' ≡ p → w' ≡ w → r ≡ err (lock_data no_read_lock) → Unread p w p' w' r
    dropped :
        (before : List Lock) (last : Lock)
        → p.read_locks ≡ before ++ (last ∷ [])
        → p' ≡ record p { read_locks = before }
        → w' ≡ (release b (last, w)).1.1
        → r ≡ (release b (last, w)).0
        → Unread p w p' w' r

  -- Every list is empty or has a last element, which `pop` takes off.
  data Popped (xs : List Lock) : Type 0 where
    empty : xs ≡ [] → pop xs ≡ none → Popped xs
    last :
        (before : List Lock) (x : Lock)
        → xs ≡ before ++ (x ∷ [])
        → pop xs ≡ some (before, x)
        → Popped xs

  popped : (xs : List Lock) → Popped xs
  unfolding pop
  popped [] = empty refl refl
  popped (x ∷ xs) = elim (popped xs) [
    | empty e q ↦ rw (e) (last [] x refl refl)
    | last before y e q ↦ last (x ∷ before) y (ap (λ t. x ∷ t) e) (rw q refl)
  ]

  -- `release_read`, in every case: without a reader it is an error and sends nothing; otherwise it
  -- releases the newest reader, the one that came last, where design.md 15.4 says the earliest, and
  -- drops it whether or not the release succeeds.
  pub release_read-Unread :
      (p : ReadWriteLock) (w : World S)
      → Unread p w (release_read b (p, w)).1.0 (release_read b (p, w)).1.1 (release_read b (p, w)).0
  unfolding release_read
  release_read-Unread p w = elim (popped p.read_locks) [
    | empty e q ↦ rw (release_read, q) (no_reader e refl refl refl)
    | last before l e q ↦ rw (release_read, q) (dropped before l e refl refl refl)
  ]
