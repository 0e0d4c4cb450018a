-- ===== src/Primitive/GroupEvent/Versions.antt =====
-- blocking/primitives.rs: the versions of a `GroupEvent`, in its lock ids and over its replies.
use ruslock.Prelude.{ℕ, ◌^◌, ◌<◌, ◌≡◌, ◌≢◌, refl, sym, ap, ◌∙◌, arith, Option, inl, inr}
use ruslock.Prelude.{◌++◌, drop, to_le_bytes, from_le_bytes, from-to_le_bytes, length-to_le_bytes}
use ruslock.Prelude.{
  to_le_bytes-IsByte, length-append, All-append, IsByte, Bool-cases, take-append, drop-append,
}
use ruslock.Key.{IsArray16, key_as_bytes}
use ruslock.Error.{Result, ok, err, panic, out_of_fuel}
use ruslock.Protocol.Id.{Id16, zero_id, id_as_bytes, id_eq}
use ruslock.Protocol.Id.Fresh.{id_eq_iff}
use ruslock.Protocol.Reply.{LockCommandResult}
use ruslock.Data.LockData.{LockData}
use ruslock.Primitive.World.{Backend, World}
use ruslock.Primitive.Lock.{Lock, with_lock_id, acquire, release_head_to_lock_wait}
use ruslock.Primitive.Event.{wait_result, forget}
use ruslock.Primitive.Event.Waits.{IsWaitFailure, wait_failure, wait_result-failed}
use ruslock.Primitive.GroupEvent.{
  GroupEvent, encode_group_event_lock_id, version_of, by_version, group_lock, after_wait,
  after_wakeup, wait, wakeup,
}

group_id_bytes :
    (c v : ℕ) → (encode_group_event_lock_id c v).bytes ≡ to_le_bytes 8 v ++ to_le_bytes 8 c
unfolding encode_group_event_lock_id to_le_bytes
group_id_bytes c v = refl

-- The client in the high half of an id.
abbrev pub client_of : Id16 → ℕ
client_of id = from_le_bytes (drop 8 id.bytes)

-- The id of a group event has 16 bytes, and gives back its version and its client, both u64.
pub group_id_fields :
    (c v : ℕ)
    → c < 2 ^ 64
    → v < 2 ^ 64
    → IsArray16 (encode_group_event_lock_id c v).bytes
      × (version_of (encode_group_event_lock_id c v) ≡ v)
      × (client_of (encode_group_event_lock_id c v) ≡ c)
unfolding version_of id_as_bytes
group_id_fields c v hc hv =
    rw
      (
        group_id_bytes c v,
        take-append (to_le_bytes 8 v) (to_le_bytes 8 c) 8 (length-to_le_bytes 8 v),
        drop-append (to_le_bytes 8 v) (to_le_bytes 8 c) 8 (length-to_le_bytes 8 v),
      )
      (
        (
          omega (
            arith,
            length-append (to_le_bytes 8 v) (to_le_bytes 8 c),
            length-to_le_bytes 8 v,
            length-to_le_bytes 8 c,
          ),
          All-append IsByte (to_le_bytes 8 v) (to_le_bytes 8 c) (to_le_bytes-IsByte 8 v)
              (to_le_bytes-IsByte 8 c),
        ),
        from-to_le_bytes 8 v hv,
        from-to_le_bytes 8 c hc,
      )

version_of-encode : (c v : ℕ) → v < 2 ^ 64 → version_of (encode_group_event_lock_id c v) ≡ v
unfolding version_of id_as_bytes
version_of-encode c v hv =
    rw
      (
        group_id_bytes c v,
        take-append (to_le_bytes 8 v) (to_le_bytes 8 c) 8 (length-to_le_bytes 8 v),
      )
      (from-to_le_bytes 8 v hv)

version_of-zero_id : version_of zero_id ≡ 0
unfolding version_of id_as_bytes zero_id from_le_bytes
version_of-zero_id = refl

after_wait-version :
    (a : LockCommandResult) (l : Lock) (g : GroupEvent)
    → g.version_id < 2 ^ 64
    → (after_wait (ok a) l g).1.version_id ≡ version_of a.lock_id
unfolding after_wait
after_wait-version a l g h =
    elim (Bool-cases (id_eq a.lock_id (encode_group_event_lock_id g.client_id g.version_id))) [
      | inl same ↦ rw same (
          sym (version_of-encode g.client_id g.version_id h)
          ∙ ap version_of (sym ((id_eq_iff a.lock_id _).0 same)))
      | inr other ↦ rw other refl
    ]

after_wakeup-version :
    (a : LockCommandResult) (l : Lock) (g : GroupEvent) (c v : ℕ)
    → v < 2 ^ 64
    → v ≢ 0
    → a.lock_id ≡ encode_group_event_lock_id c v
    → (after_wakeup (ok a) l g).1.version_id ≡ v
unfolding after_wakeup
after_wakeup-version a l g c v h positive e = elim (Bool-cases (id_eq a.lock_id zero_id)) [
  | inl zero ↦ absurd (
      positive (
        omega (
          arith,
          version_of-encode c v h,
          version_of-zero_id,
          ap version_of (sym e ∙ (id_eq_iff a.lock_id zero_id).0 zero),
        )))
  | inr other ↦ rw other (rw e (version_of-encode c v h))
]

module _ {S : Type 0} (b : Backend S) where
  -- The lock that `GroupEvent::wait` acquires.
  abbrev pub wait_lock : ℕ → GroupEvent → World S → Lock
  wait_lock timeout g w = by_version (
      with_lock_id b (key_as_bytes g.lock.lock_key)
        (encode_group_event_lock_id g.client_id g.version_id) timeout 0 0 0 w)

  -- How the event and the outcome of `wait` follow from the reply to that lock.
  pub data Waited (g g' : GroupEvent) (reply : Result LockCommandResult) (r : Result (Unit {0}))
      : Type 0 where
    woken :
        (a : LockCommandResult)
        → reply ≡ ok a
        → r ≡ ok tt
        → g'.version_id ≡ version_of a.lock_id
        → g'.client_id ≡ g.client_id
        → g'.lock.lock_key ≡ g.lock.lock_key
        → Waited g g' reply r
    failed :
        ((a : LockCommandResult) → reply ≢ ok a) → g' ≡ g → IsWaitFailure r → Waited g g' reply r

  after_wait-failed :
      (r : Result LockCommandResult) (l : Lock) (g : GroupEvent)
      → ((a : LockCommandResult) → r ≢ ok a)
      → ((after_wait r l g).1 ≡ g) × ((after_wait r l g).0 ≡ forget r)
  unfolding after_wait forget
  after_wait-failed (ok a) l g h = absurd (h a refl)
  after_wait-failed (err e) l g h = (refl, refl)
  after_wait-failed panic l g h = (refl, refl)
  after_wait-failed out_of_fuel l g h = (refl, refl)

  not_granted :
      (r : Result LockCommandResult) (l : Lock) (g : GroupEvent)
      → ((a : LockCommandResult) → r ≢ ok a)
      → Waited g (after_wait (wait_result r) l g).1 r (after_wait (wait_result r) l g).0
  not_granted r l g h =
      let (same, outcome) = after_wait-failed (wait_result r) l g (wait_result-failed r h) in
      failed h same (rw outcome (wait_failure r h))

  after_wait-Waited :
      (r : Result LockCommandResult) (l : Lock) (g : GroupEvent)
      → g.version_id < 2 ^ 64
      → Waited g (after_wait (wait_result r) l g).1 r (after_wait (wait_result r) l g).0
  unfolding wait_result after_wait
  after_wait-Waited (ok a) l g h = woken a refl refl (after_wait-version a l g h) refl refl
  after_wait-Waited (err e) l g h = not_granted (err e) l g (λ a p. cc)
  after_wait-Waited panic l g h = not_granted panic l g (λ a p. cc)
  after_wait-Waited out_of_fuel l g h = not_granted out_of_fuel l g (λ a p. cc)

  -- `GroupEvent::wait` of an event with a u64 version: when the lock is granted, the event then has
  -- the version that the reply's lock id carries, whether or not the id is the one waited with, and
  -- keeps its client and its key; otherwise the event is what it was, and no wait ends with the
  -- lock timeout or the command timeout of the reply, which are the event's own timeout.
  pub wait-Waited :
      (timeout : ℕ) (g : GroupEvent) (w : World S)
      → g.version_id < 2 ^ 64
      → Waited g
          (wait b timeout (g, w)).1.0
          (acquire b (wait_lock timeout g w, w)).0
          (wait b timeout (g, w)).0
  unfolding wait
  wait-Waited timeout g w h =
      after_wait-Waited (acquire b (wait_lock timeout g w, w)).0
        (acquire b (wait_lock timeout g w, w)).1.0 g h

  -- The reply that `GroupEvent::wakeup` gets, and the lock behind it.
  abbrev pub wakeup_reply :
      Option LockData → GroupEvent → World S → Result LockCommandResult × (Lock × World S)
  wakeup_reply contents g w =
      release_head_to_lock_wait b contents (by_version (group_lock b g zero_id w), w)

  -- `GroupEvent::wakeup`, when it is answered under the id of a client and a version that is a u64
  -- and not 0: it succeeds, and the event then has that version.
  pub wakeup_version :
      (contents : Option LockData) (g : GroupEvent) (w : World S) (a : LockCommandResult)
      → (c v : ℕ) → v < 2 ^ 64
      → v ≢ 0
      → (wakeup_reply contents g w).0 ≡ ok a
      → a.lock_id ≡ encode_group_event_lock_id c v
      → ((wakeup b contents (g, w)).0 ≡ ok tt) × ((wakeup b contents (g, w)).1.0.version_id ≡ v)
  unfolding wakeup after_wakeup
  wakeup_version contents g w a c v h positive reply e =
      rw reply (refl, after_wakeup-version a (wakeup_reply contents g w).1.0 g c v h positive e)
