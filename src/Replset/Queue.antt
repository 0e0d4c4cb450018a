-- ===== src/Replset/Queue.antt =====
-- blocking/replset.rs: the queue of pending commands over one call of `send_command`.
use ruslock.Prelude.{
  ◌≡◌, ◌≢◌, refl, ap, ◌∙◌, List, [], ◌∷◌, ◌++◌, true, false, Bool-cases, inl, inr,
}
use ruslock.Prelude.{All}
use ruslock.Protocol.Id.{Id16, id_eq}
use ruslock.Protocol.Id.Fresh.{id_eq_iff}
use ruslock.Replset.{PendingCommand, RetryType, push_pending, update_pending, remove_pending}

-- No command of the queue has the id.
abbrev pub IsFresh : Id16 → List PendingCommand → Type 0
IsFresh id queue = All (λ (p : PendingCommand). p.request_id ≢ id) queue

id_eq-same : (id : Id16) → id_eq id id ≡ true
id_eq-same id = (id_eq_iff id id).1 refl

id_eq-differ : (a b : Id16) → a ≢ b → id_eq a b ≡ false
id_eq-differ a b differ = elim (Bool-cases (id_eq a b)) [
  | inl same ↦ absurd (differ ((id_eq_iff a b).0 same))
  | inr other ↦ other
]

update-last :
    (t : RetryType) (p : PendingCommand) (queue : List PendingCommand)
    → IsFresh p.request_id queue
    → update_pending p.request_id t (queue ++ (p ∷ []))
      ≡ queue ++ (record p { retry_type = t } ∷ [])
unfolding update_pending
update-last t p [] fresh = rw (id_eq-same p.request_id) refl
update-last t p (q ∷ queue) (differ, fresh) =
    rw (id_eq-differ q.request_id p.request_id differ)
      (ap (λ rest. q ∷ rest) (update-last t p queue fresh))

remove-last :
    (p : PendingCommand) (queue : List PendingCommand)
    → IsFresh p.request_id queue
    → remove_pending p.request_id (queue ++ (p ∷ [])) ≡ queue
unfolding remove_pending
remove-last p [] fresh = rw (id_eq-same p.request_id) refl
remove-last p (q ∷ queue) (differ, fresh) =
    rw (id_eq-differ q.request_id p.request_id differ)
      (ap (λ rest. q ∷ rest) (remove-last p queue fresh))

-- The retry types of a command, set one after another.
abbrev pub update_all : Id16 → List RetryType → List PendingCommand → List PendingCommand
update_all id [] queue = queue
update_all id (t ∷ ts) queue = update_all id ts (update_pending id t queue)

-- A command with an id that the queue does not have leaves nothing behind: pushed, its retry type set
-- any number of times, and removed, it leaves the queue as it was, the others in their order.
pub remove_pending-push_pending :
    (p : PendingCommand) (ts : List RetryType) (queue : List PendingCommand)
    → IsFresh p.request_id queue
    → remove_pending p.request_id (update_all p.request_id ts (push_pending p queue)) ≡ queue
unfolding push_pending
remove_pending-push_pending p [] queue fresh = remove-last p queue fresh
remove_pending-push_pending p (t ∷ ts) queue fresh =
    ap (λ q. remove_pending p.request_id (update_all p.request_id ts q))
      (update-last t p queue fresh)
    ∙ remove_pending-push_pending (record p { retry_type = t }) ts queue fresh
