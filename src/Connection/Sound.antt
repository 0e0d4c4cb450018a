-- ===== src/Connection/Sound.antt =====
-- blocking/connection.rs: every access keeps the pending entries and the channels sound.
use ruslock.Prelude.{ℕ, ◌≡◌, sym, List, [], Option, none, some}
use mathlib.Core.Path.{subst}
use ruslock.Error.{SlockError, Result, ok, err}
use ruslock.Protocol.Id.{Id16}
use ruslock.Protocol.Reply.{CommandResult, request_id}
use ruslock.Connection.State.{Pc, update, remove, insert, send_all}
use ruslock.Connection.Owners.{
  InFlight, Fits, HasOwnReply, NoEntry, AreSound, update_all, update_both, update-same, All-remove,
  InFlight-Fits, NoEntry-remove, NoEntry-owned, IsOwned-elsewhere, IsOwned-onwards, send_all-ok,
}

module _ {pc : ℕ → Pc} {pending : List (Id16 × ℕ)}
    {mailbox : ℕ → Option (Result CommandResult)} where
  -- A thread stays in its call, or stays out of one.
  pub onwards :
      (i : ℕ) (p : Pc)
      → ((id : Id16) → InFlight (pc i) id → InFlight p id)
      → ((id : Id16) → Fits (pc i) id → Fits p id)
      → HasOwnReply p
      → AreSound pc pending mailbox
      → AreSound (update pc i p) pending mailbox
  onwards i p flight fits own v = record {
    owned = IsOwned-onwards pc i p pending flight v.owned;
    single = v.single;
    fitting =
        update_all (λ j q. (a : CommandResult) → mailbox j ≡ some (ok a) → Fits q (request_id a)) pc
          i p (λ a e. fits (request_id a) (v.fitting i a e)) (λ j differ. v.fitting j);
    own_replies = update_all (λ j q. HasOwnReply q) pc i p own (λ j differ. v.own_replies j);
  }

  -- A thread without an entry leaves its call.
  pub leaves :
      (i : ℕ) (p : Pc)
      → NoEntry i pending
      → ((id : Id16) → Fits p id)
      → HasOwnReply p
      → AreSound pc pending mailbox
      → AreSound (update pc i p) pending mailbox
  leaves i p without fits own v = record {
    owned = IsOwned-elsewhere pc i p pending without v.owned;
    single = v.single;
    fitting =
        update_all (λ j q. (a : CommandResult) → mailbox j ≡ some (ok a) → Fits q (request_id a)) pc
          i p (λ a e. fits (request_id a)) (λ j differ. v.fitting j);
    own_replies = update_all (λ j q. HasOwnReply q) pc i p own (λ j differ. v.own_replies j);
  }

  pub removes : (id : Id16) → AreSound pc pending mailbox → AreSound pc (remove id pending) mailbox
  removes id v = record {
    owned = All-remove _ id pending v.owned;
    single = λ i r e. All-remove _ id pending (v.single i r e);
    fitting = v.fitting;
    own_replies = v.own_replies;
  }

  -- Everybody gets the same error.
  pub drains :
      (x : SlockError)
      → AreSound pc pending mailbox
      → AreSound pc [] (send_all (err x) pending mailbox)
  drains x v = record {
    owned = tt;
    single = λ i r e. tt;
    fitting = λ i a e. v.fitting i a (send_all-ok x pending mailbox i a e);
    own_replies = v.own_replies;
  }

  -- A message for the owner of an entry, which fits its call.
  pub delivers :
      (id : Id16) (i : ℕ) (r : Result CommandResult)
      → InFlight (pc i) id
      → ((a : CommandResult) → r ≡ ok a → request_id a ≡ id)
      → AreSound pc pending mailbox
      → AreSound pc (remove id pending) (update mailbox i (some r))
  delivers id i r flight same v = record {
    owned = All-remove _ id pending v.owned;
    single =
        update_all
          (λ j m. (r' : Result CommandResult) → m ≡ some r' → NoEntry j (remove id pending)) mailbox
          i (some r) (λ r' e. NoEntry-remove pc i id pending flight v.owned)
          (λ j differ r' e. All-remove _ id pending (v.single j r' e));
    fitting =
        update_all (λ j m. (a : CommandResult) → m ≡ some (ok a) → Fits (pc j) (request_id a))
          mailbox i (some r)
          (λ a e. subst (Fits (pc i)) (sym (same a cc)) (InFlight-Fits (pc i) id flight))
          (λ j differ. v.fitting j);
    own_replies = v.own_replies;
  }

  -- A call begins to wait under its id, on a new channel.
  pub registers :
      (i : ℕ) (id : Id16) (p : Pc)
      → ((id' : Id16) → ¬ InFlight (pc i) id')
      → InFlight p id
      → HasOwnReply p
      → AreSound pc pending mailbox
      → AreSound (update pc i p) (insert id i pending) (update mailbox i none)
  unfolding insert
  registers i id p grounded flight own v =
      let without : NoEntry i pending = NoEntry-owned pc i pending grounded v.owned in
      record {
        owned = (
          rw (update-same pc i p) flight,
          All-remove _ id pending (IsOwned-elsewhere pc i p pending without v.owned),
        );
        single =
            update_all
              (λ j m. (r : Result CommandResult) → m ≡ some r → NoEntry j (insert id i pending))
              mailbox i none (λ r e. cc)
              (λ j differ r e.
                (λ same. differ (sym same), All-remove _ id pending (v.single j r e)));
        fitting =
            update_both (λ j q m. (a : CommandResult) → m ≡ some (ok a) → Fits q (request_id a)) pc
              mailbox i p none (λ a e. cc) (λ j differ. v.fitting j);
        own_replies = update_all (λ j q. HasOwnReply q) pc i p own (λ j differ. v.own_replies j);
      }
