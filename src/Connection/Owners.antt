-- ===== src/Connection/Owners.antt =====
-- blocking/connection.rs: who the entries of `pending` belong to, and whose answer a channel holds.
use ruslock.Prelude.{
  ℕ, ◌≡◌, ◌≢◌, refl, sym, ◌∙◌, List, [], ◌∷◌, Option, none, some, Bool, true, false, ◌==◌, ==_iff,
  Bool-cases, inl, inr, All,
}
use mathlib.Core.Path.{subst}
use ruslock.Error.{SlockError, Result, ok, err}
use ruslock.Protocol.Id.{Id16, id_eq}
use ruslock.Protocol.Id.Fresh.{id_eq_iff}
use ruslock.Protocol.Reply.{CommandResult, request_id}
use ruslock.Connection.State.{
  Pc, registered, write_failed, waiting, timed_out, returned, Connection, update, remove, find,
  send_all,
}

-- The thread is in a `send_command` with this id, from the insertion on.
abbrev pub InFlight : Pc → Id16 → Type 0
InFlight (registered e) id = e.request_id ≡ id
InFlight (write_failed e x) id = e.request_id ≡ id
InFlight (waiting e) id = e.request_id ≡ id
InFlight (timed_out e) id = e.request_id ≡ id
InFlight p id = ⊥

-- A call that returned a reply returned one with its own request id.
abbrev pub HasOwnReply : Pc → Type 0
HasOwnReply (returned e (ok a)) = request_id a ≡ e.request_id
HasOwnReply p = Unit

-- An answer with this id is for the call of the thread.
abbrev pub Fits : Pc → Id16 → Type 0
Fits (registered e) id = e.request_id ≡ id
Fits (write_failed e x) id = e.request_id ≡ id
Fits (waiting e) id = e.request_id ≡ id
Fits (timed_out e) id = e.request_id ≡ id
Fits p id = Unit

abbrev pub NoEntry : ℕ → List (Id16 × ℕ) → Type 0
NoEntry i entries = All (λ (entry : Id16 × ℕ). entry.1 ≢ i) entries

abbrev pub IsOwned : (ℕ → Pc) → List (Id16 × ℕ) → Type 0
IsOwned pc entries = All (λ (entry : Id16 × ℕ). InFlight (pc entry.1) entry.0) entries

-- Of the threads, the pending entries and the channels: each entry belongs to a call in flight with
-- its id, no entry to a thread whose channel holds a message, a reply in a channel fits the call that
-- waits for it, and so does each that was returned.
pub record AreSound (pc : ℕ → Pc) (pending : List (Id16 × ℕ))
    (mailbox : ℕ → Option (Result CommandResult)) : Type 0 where
  pub owned : IsOwned pc pending
  pub single : (i : ℕ) (r : Result CommandResult) → mailbox i ≡ some r → NoEntry i pending
  pub fitting : (i : ℕ) (a : CommandResult) → mailbox i ≡ some (ok a) → Fits (pc i) (request_id a)
  pub own_replies : (i : ℕ) → HasOwnReply (pc i)

-- The invariant of a connection and its threads.
abbrev pub IsSound : Connection → Type 0
IsSound s = AreSound s.pc s.pending s.mailbox

pub update-same {ℓ} : {A : Type ℓ} (f : ℕ → A) (i : ℕ) (a : A) → update f i a i ≡ a
update-same f i a = rw ((==_iff i i).1 refl) refl

pub update-other {ℓ} : {A : Type ℓ} (f : ℕ → A) (i j : ℕ) (a : A) → j ≢ i → update f i a j ≡ f j
update-other f i j a differ = elim (Bool-cases (j == i)) [
  | inl same ↦ absurd (differ ((==_iff j i).0 same))
  | inr other ↦ rw other refl
]

pub not_same : (b : Bool) → b ≡ true → b ≡ false → ⊥
not_same true h h' = cc
not_same false h h' = cc

pub ==-false : (j i : ℕ) → (j == i) ≡ false → j ≢ i
==-false j i h e = not_same (j == i) ((==_iff j i).1 e) h

-- To prove a predicate of every value of an updated function.
pub update_all {ℓ κ} :
    {A : Type ℓ} (P : ℕ → A → Type κ) (f : ℕ → A) (i : ℕ) (a : A)
    → P i a
    → ((j : ℕ) → j ≢ i → P j (f j))
    → (j : ℕ) → P j (update f i a j)
update_all P f i a here there j = elim (Bool-cases (j == i)) [
  | inl same ↦
      let e : j ≡ i = (==_iff j i).0 same in
      subst (λ k. P k (update f i a k)) (sym e) (rw (update-same f i a) here)
  | inr other ↦ rw (update-other f i j a (==-false j i other)) (there j (==-false j i other))
]

pub update_both {ℓ κ μ} :
    {A : Type ℓ} {B : Type κ} (P : ℕ → A → B → Type μ) (f : ℕ → A) (g : ℕ → B) (i : ℕ) (a : A)
    (b : B)
    → P i a b
    → ((j : ℕ) → j ≢ i → P j (f j) (g j))
    → (j : ℕ) → P j (update f i a j) (update g i b j)
update_both P f g i a b here there j = elim (Bool-cases (j == i)) [
  | inl same ↦
      let e : j ≡ i = (==_iff j i).0 same in
      subst (λ k. P k (update f i a k) (update g i b k)) (sym e)
        (rw (update-same f i a, update-same g i b) here)
  | inr other ↦
      rw (update-other f i j a (==-false j i other), update-other g i j b (==-false j i other))
        (there j (==-false j i other))
]

pub All-remove {κ} :
    (P : Id16 × ℕ → Type κ) (id : Id16) (entries : List (Id16 × ℕ))
    → All P entries
    → All P (remove id entries)
unfolding remove
All-remove P id [] h = tt
All-remove P id (entry ∷ entries) (h, hs) = elim (Bool-cases (id_eq entry.0 id)) [
  | inl same ↦ rw same (All-remove P id entries hs)
  | inr other ↦ rw other (h, All-remove P id entries hs)
]

All-map {κ μ} :
    (P : Id16 × ℕ → Type κ) (Q : Id16 × ℕ → Type μ) (entries : List (Id16 × ℕ))
    → ((entry : Id16 × ℕ) → P entry → Q entry)
    → All P entries
    → All Q entries
All-map P Q [] f h = tt
All-map P Q (entry ∷ entries) f (h, hs) = (f entry h, All-map P Q entries f hs)

-- The id of a call in flight is one.
InFlight-unique : (p : Pc) (id id' : Id16) → InFlight p id → InFlight p id' → id ≡ id'
InFlight-unique (registered e) id id' h h' = sym h ∙ h'
InFlight-unique (write_failed e x) id id' h h' = sym h ∙ h'
InFlight-unique (waiting e) id id' h h' = sym h ∙ h'
InFlight-unique (timed_out e) id id' h h' = sym h ∙ h'
InFlight-unique p id id' h h' = absurd h

pub InFlight-Fits : (p : Pc) (id : Id16) → InFlight p id → Fits p id
InFlight-Fits (registered e) id h = h
InFlight-Fits (write_failed e x) id h = h
InFlight-Fits (waiting e) id h = h
InFlight-Fits (timed_out e) id h = h
InFlight-Fits p id h = absurd h

-- Without its entry under the id of its call a thread has none.
pub NoEntry-remove :
    (pc : ℕ → Pc) (i : ℕ) (id : Id16) (entries : List (Id16 × ℕ))
    → InFlight (pc i) id
    → IsOwned pc entries
    → NoEntry i (remove id entries)
unfolding remove
NoEntry-remove pc i id [] flight h = tt
NoEntry-remove pc i id (entry ∷ entries) flight (h, hs) = elim (Bool-cases (id_eq entry.0 id)) [
  | inl same ↦ rw same (NoEntry-remove pc i id entries flight hs)
  | inr other ↦ rw other (
    λ e.
        not_same (id_eq entry.0 id)
          ((id_eq_iff entry.0 id).1
            (InFlight-unique (pc i) entry.0 id (subst (λ k. InFlight (pc k) entry.0) e h) flight))
          other,
    NoEntry-remove pc i id entries flight hs,
  )
]

-- A thread that is in no call has no entry.
pub NoEntry-owned :
    (pc : ℕ → Pc) (i : ℕ) (entries : List (Id16 × ℕ))
    → ((id : Id16) → ¬ InFlight (pc i) id)
    → IsOwned pc entries
    → NoEntry i entries
NoEntry-owned pc i entries grounded =
    All-map _ _ entries (λ entry h e. grounded entry.0 (subst (λ k. InFlight (pc k) entry.0) e h))

-- A thread without an entry may go anywhere.
pub IsOwned-elsewhere :
    (pc : ℕ → Pc) (i : ℕ) (p : Pc) (entries : List (Id16 × ℕ))
    → NoEntry i entries
    → IsOwned pc entries
    → IsOwned (update pc i p) entries
IsOwned-elsewhere pc i p [] differ h = tt
IsOwned-elsewhere pc i p (entry ∷ entries) (differ, differs) (h, hs) =
    (rw (update-other pc i entry.1 p differ) h, IsOwned-elsewhere pc i p entries differs hs)

-- A thread in flight may go on within its call.
pub IsOwned-onwards :
    (pc : ℕ → Pc) (i : ℕ) (p : Pc) (entries : List (Id16 × ℕ))
    → ((id : Id16) → InFlight (pc i) id → InFlight p id)
    → IsOwned pc entries
    → IsOwned (update pc i p) entries
IsOwned-onwards pc i p entries onwards = All-map _ _ entries λ entry.
    update_all (λ j q. InFlight (pc j) entry.0 → InFlight q entry.0) pc i p (onwards entry.0)
      (λ j differ h. h) entry.1

find-here :
    (id : Id16) (entry : Id16 × ℕ) (entries : List (Id16 × ℕ))
    → id_eq entry.0 id ≡ true
    → find id (entry ∷ entries) ≡ some entry.1
unfolding find
find-here id entry entries e = rw e refl

find-past :
    (id : Id16) (entry : Id16 × ℕ) (entries : List (Id16 × ℕ))
    → id_eq entry.0 id ≡ false
    → find id (entry ∷ entries) ≡ find id entries
unfolding find
find-past id entry entries e = rw e refl

-- What `remove` finds belongs to a call in flight with that id.
pub InFlight-find :
    (pc : ℕ → Pc) (id : Id16) (i : ℕ) (entries : List (Id16 × ℕ))
    → find id entries ≡ some i
    → IsOwned pc entries
    → InFlight (pc i) id
unfolding find
InFlight-find pc id i [] found h = cc
InFlight-find pc id i (entry ∷ entries) found (h, hs) = elim (Bool-cases (id_eq entry.0 id)) [
  | inl same ↦
      let whose : some entry.1 ≡ some i = sym (find-here id entry entries same) ∙ found in
      let e : entry.1 ≡ i = cc in
      subst (λ k. InFlight (pc k) id) e
        (subst (λ key. InFlight (pc entry.1) key) ((id_eq_iff entry.0 id).0 same) h)
  | inr other ↦ InFlight-find pc id i entries (sym (find-past id entry entries other) ∙ found) hs
]

-- Draining gives no channel a reply that it did not have.
pub send_all-ok :
    (x : SlockError) (entries : List (Id16 × ℕ)) (mailbox : ℕ → Option (Result CommandResult))
    → (i : ℕ) (a : CommandResult) → send_all (err x) entries mailbox i ≡ some (ok a)
    → mailbox i ≡ some (ok a)
unfolding send_all
send_all-ok x [] mailbox i a h = h
send_all-ok x (entry ∷ entries) mailbox i a h =
    update_all (λ j m. m ≡ some (ok a) → mailbox j ≡ some (ok a)) mailbox entry.1 (some (err x))
      (λ e. cc) (λ j differ e. e) i
      (send_all-ok x entries (update mailbox entry.1 (some (err x))) i a h)

pub find-remove : (id : Id16) (entries : List (Id16 × ℕ)) → find id (remove id entries) ≡ none
unfolding find remove
find-remove id [] = refl
find-remove id (entry ∷ entries) = elim (Bool-cases (id_eq entry.0 id)) [
  | inl same ↦ rw same (find-remove id entries)
  | inr other ↦ rw (other, other) (find-remove id entries)
]
