-- ===== src/Primitive/Lock/Commands.antt =====
-- blocking/primitives.rs: what the methods of `Lock` send, and what they make of the answer.
use ruslock.Prelude.{ℕ, ◌<◌, ◌≡◌, ◌≢◌, ◌↔◌, ◌⊎◌, refl, ◌∙◌, arith}
use ruslock.Prelude.{
  List, [], ◌∷◌, ◌++◌, Option, none, some, bit_and, bit_and-bit_or, is_some, if◌then◌else◌,
}
use mathlib.Core.List.{append_assoc}
use ruslock.Constants.{command_type_lock, command_type_unlock, lock_flag_contains_data}
use ruslock.Error
use ruslock.Error.{
  SlockError, Result, ok, err, panic, out_of_fuel, lock_locked, lock_unlocked, lock_not_own,
  lock_timeout, lock_expired, state_error, server, Outcome, outcome, is_ok, is_err, is_panic,
  is_out_of_fuel,
}
use ruslock.Protocol.Id.{new_id}
use ruslock.Protocol.Id.Fresh.{new_id_differ}
use ruslock.Protocol.Command.{Command, LockCommand, has_extra_data, lock_extra, encode_contents}
use ruslock.Protocol.Reply.{LockCommandResult}
use ruslock.Data.LockData.{LockData, encode}
use ruslock.Primitive.World.{Backend, World, continue, fresh_id}
use ruslock.Primitive.Lock.{
  Lock, check_result, expect_lock, data_flag, lock_command, apply_result, acquire,
  acquire_with_flags, release, release_with_flags,
}

-- Which result code each outcome stands for, and that it carries the whole reply. The codes 1, 2 and
-- 12, which docs/Architecture.md 3.5 maps to `Protocol` and `AckWaiting`, are server errors.
pub record ResultTable (r : LockCommandResult) : Type 0 where
  pub success : (a : LockCommandResult) → (check_result r ≡ ok a) ↔ ((r.result ≡ 0) × (r ≡ a))
  pub locked :
      (a : LockCommandResult) → (check_result r ≡ err (lock_locked a)) ↔ ((r.result ≡ 5) × (r ≡ a))
  pub unlocked :
      (a : LockCommandResult)
      → (check_result r ≡ err (lock_unlocked a)) ↔ ((r.result ≡ 6) × (r ≡ a))
  pub not_own :
      (a : LockCommandResult) → (check_result r ≡ err (lock_not_own a)) ↔ ((r.result ≡ 7) × (r ≡ a))
  pub timeout :
      (a : LockCommandResult) → (check_result r ≡ err (lock_timeout a)) ↔ ((r.result ≡ 8) × (r ≡ a))
  pub expired :
      (a : LockCommandResult) → (check_result r ≡ err (lock_expired a)) ↔ ((r.result ≡ 9) × (r ≡ a))
  pub state :
      (a : LockCommandResult) → (check_result r ≡ err (state_error a)) ↔ ((r.result ≡ 10) × (r ≡ a))
  pub other :
      (code : ℕ)
      → (check_result r ≡ err (server code))
        ↔ ((r.result ≡ code) × (code ≢ 0) × ((code < 5) ⊎ (10 < code)))
  pub undocumented :
      (r.result ≡ 1) ⊎ (r.result ≡ 2) ⊎ (r.result ≡ 12) → check_result r ≡ err (server r.result)

-- The outcome of a lock reply is a success exactly for code 0, each named error exactly for its
-- code from 5 to 10 and with the reply inside, and a server error exactly for the other codes: also
-- for 1, 2 and 12, where docs/Architecture.md 3.5 says `Protocol` and `AckWaiting`.
pub check_result-ResultTable : (r : LockCommandResult) → ResultTable r
unfolding check_result
check_result-ResultTable r = record {
  success = λ a. (λ h. ground arith, λ h. ground arith);
  locked = λ a. (λ h. ground arith, λ h. ground arith);
  unlocked = λ a. (λ h. ground arith, λ h. ground arith);
  not_own = λ a. (λ h. ground arith, λ h. ground arith);
  timeout = λ a. (λ h. ground arith, λ h. ground arith);
  expired = λ a. (λ h. ground arith, λ h. ground arith);
  state = λ a. (λ h. ground arith, λ h. ground arith);
  other = λ code. (λ h. ground arith, λ h. ground arith);
  undocumented = λ h. ground arith;
}

abbrev pub expected_extra : Option LockData → Result (Option (List ℕ))
expected_extra none = ok none
expected_extra (some d) = Error.◌>>=◌ (encode d) (λ extra. ok (some extra))

has_extra_data-data_flag :
    (c : LockCommand) (flag : ℕ) (contents : Option LockData)
    → c.flag ≡ data_flag lock_flag_contains_data flag contents
    → bit_and flag lock_flag_contains_data ≡ 0
    → has_extra_data c ≡ is_some contents
unfolding has_extra_data data_flag
has_extra_data-data_flag c flag none e plain = rw (e, plain)
has_extra_data-data_flag c flag (some d) e plain = rw (e, bit_and-bit_or flag 0x20)

-- Of a command whose flag says by `data_flag` whether it has data, and asked for none by itself, the
-- extra data is the encoding of its data, and there is none without data: data is never dropped,
-- and no command fails for missing data.
lock_extra-data_flag :
    (c : LockCommand) (flag : ℕ)
    → c.flag ≡ data_flag lock_flag_contains_data flag c.contents
    → bit_and flag lock_flag_contains_data ≡ 0
    → lock_extra c ≡ expected_extra c.contents
unfolding lock_extra
lock_extra-data_flag c flag e plain =
    rw (has_extra_data-data_flag c flag c.contents e plain) (by_contents c.contents)
  where
    by_contents :
        (contents : Option LockData)
        → (if is_some contents
            then Error.◌>>=◌ (encode_contents contents) (λ extra. ok (some extra))
            else ok none)
          ≡ expected_extra contents
    by_contents none = refl
    by_contents (some d) = refl

module _ {S : Type 0} (b : Backend S) where
  -- The request of `acquire_with_flags` and `release_with_flags`, by its command type.
  abbrev pub request : ℕ → ℕ → Option LockData → Lock → World S → LockCommand
  request command_type flag contents l w =
      lock_command l command_type (data_flag lock_flag_contains_data flag contents) w.db_id
        (fresh_id b w).0 l.lock_id contents

  -- What the client answers to that request, where a reply of another kind is an error.
  abbrev pub answer_to : ℕ → ℕ → Option LockData → Lock → World S → Result LockCommandResult
  answer_to command_type flag contents l w =
      expect_lock
        (b.send (Command.lock (request command_type flag contents l w)) (fresh_id b w).1.env).0

  -- The lock and the outcome behind one exchange, by the client's answer: the lock changes in its
  -- data alone, to that of the reply, whatever the reply's code; without a lock reply it does not
  -- change, and the outcome is that of the client.
  pub data Exchange (answer : Result LockCommandResult) (l l' : Lock) (r : Result LockCommandResult)
      : Type 0 where
    answered :
        (a : LockCommandResult)
        → answer ≡ ok a
        → l' ≡ record l { current_data = a.contents }
        → r ≡ check_result a
        → Exchange answer l l' r
    failed :
        ((a : LockCommandResult) → answer ≢ ok a) → l' ≡ l → r ≡ answer → Exchange answer l l' r

  apply_result-Exchange :
      (l : Lock) (w : World S) (r : Result LockCommandResult)
      → Exchange r l (continue r apply_result (l, w)).1.0 (continue r apply_result (l, w)).0
  unfolding apply_result
  apply_result-Exchange l w (ok a) = answered a refl refl refl
  apply_result-Exchange l w (err e) = failed (λ a h. cc) refl refl
  apply_result-Exchange l w panic = failed (λ a h. cc) refl refl
  apply_result-Exchange l w out_of_fuel = failed (λ a h. cc) refl refl

  -- `acquire_with_flags` and `release_with_flags`, by what the client answers to the request: on a
  -- lock reply the lock keeps its key, its id, its times and its counts and takes the data of the
  -- reply, also where the reply is a refusal, and the outcome is that of the reply's code; without one
  -- the lock stays as it is and the outcome is the client's error.
  pub acquire_release-Exchange :
      (flag : ℕ) (contents : Option LockData) (l : Lock) (w : World S)
      → Exchange
          (answer_to command_type_lock flag contents l w)
          l
          (acquire_with_flags b flag contents (l, w)).1.0
          (acquire_with_flags b flag contents (l, w)).0
        × Exchange
            (answer_to command_type_unlock flag contents l w)
            l
            (release_with_flags b flag contents (l, w)).1.0
            (release_with_flags b flag contents (l, w)).0
  unfolding acquire_with_flags release_with_flags
  acquire_release-Exchange flag contents l w =
      (apply_result-Exchange l _ _, apply_result-Exchange l _ _)

  -- Two requests of one world in a row have different ids, whatever the client does between them.
  fresh_ids_differ :
      (w w' : World S)
      → w'.id_counter ≡ (fresh_id b w).1.id_counter
      → (fresh_id b w).0 ≢ (fresh_id b w').0
  unfolding fresh_id new_id
  fresh_ids_differ w w' e = new_id_differ _ _ _ _ w.id_counter w'.id_counter (λ h. omega arith)

  pub after_reply :
      (r : Result LockCommandResult) (l : Lock) (w : World S)
      → (continue r apply_result (l, w)).1.1 ≡ w
  unfolding apply_result
  after_reply (ok a) l w = refl
  after_reply (err e) l w = refl
  after_reply panic l w = refl
  after_reply out_of_fuel l w = refl

  pub after_reply_lock :
      (r : Result LockCommandResult) (l : Lock) (w : World S)
      → (continue r apply_result (l, w)).1.0.lock_id ≡ l.lock_id
        × (continue r apply_result (l, w)).1.0.lock_key ≡ l.lock_key
  unfolding apply_result
  after_reply_lock (ok a) l w = (refl, refl)
  after_reply_lock (err e) l w = (refl, refl)
  after_reply_lock panic l w = (refl, refl)
  after_reply_lock out_of_fuel l w = (refl, refl)

  -- One request more was sent, and one id was drawn.
  pub record OneMore (c : LockCommand) (w w' : World S) : Type 0 where
    pub sent : w'.sent ≡ w.sent ++ (Command.lock c ∷ [])
    pub id_counter : w'.id_counter ≡ (fresh_id b w).1.id_counter
    pub db_id : w'.db_id ≡ w.db_id

  pub acquire-OneMore :
      (flag : ℕ) (contents : Option LockData) (l : Lock) (w : World S)
      → OneMore
          (request command_type_lock flag contents l w)
          w
          (acquire_with_flags b flag contents (l, w)).1.1
  unfolding acquire_with_flags
  acquire-OneMore flag contents l w =
      rw after_reply (record { sent = refl; id_counter = refl; db_id = refl })

  pub release-OneMore :
      (flag : ℕ) (contents : Option LockData) (l : Lock) (w : World S)
      → OneMore
          (request command_type_unlock flag contents l w)
          w
          (release_with_flags b flag contents (l, w)).1.1
  unfolding release_with_flags
  release-OneMore flag contents l w =
      rw after_reply (record { sent = refl; id_counter = refl; db_id = refl })

  -- What an acquire and a release in a row have sent.
  pub record LockedThenUnlocked (l : Lock) (w w' : World S) : Type 0 where
    pub first : LockCommand
    pub second : LockCommand
    pub sent : w'.sent ≡ w.sent ++ (Command.lock first ∷ Command.lock second ∷ [])
    pub types :
        (first.command_type ≡ command_type_lock) × (second.command_type ≡ command_type_unlock)
    pub ids : (first.lock_id ≡ l.lock_id) × (second.lock_id ≡ l.lock_id)
    pub keys : (first.lock_key ≡ l.lock_key) × (second.lock_key ≡ l.lock_key)
    pub requests : first.request_id ≢ second.request_id

  -- An acquire and the release behind it, whatever the client answers to either, send one lock and
  -- one unlock command under the lock's own id and key, with two different request ids.
  pub release-acquire :
      (l : Lock) (w : World S) → LockedThenUnlocked l w (release b (acquire b (l, w)).1).1.1
  unfolding acquire release
  release-acquire l w =
      let s1 : Lock × World S = (acquire_with_flags b 0 none (l, w)).1 in
      let one : OneMore (request command_type_lock 0 none l w) w s1.1 =
        acquire-OneMore 0 none l w in
      let two : OneMore (request command_type_unlock 0 none s1.0 s1.1) s1.1
          (release_with_flags b 0 none s1).1.1 =
        release-OneMore 0 none s1.0 s1.1 in
      record {
        first = request command_type_lock 0 none l w;
        second = request command_type_unlock 0 none s1.0 s1.1;
        sent = two.sent ∙ rw (one.sent) (append_assoc w.sent _ _);
        types = (refl, refl);
        ids = (refl, (after_reply_lock _ l _).0);
        keys = (refl, (after_reply_lock _ l _).1);
        requests = fresh_ids_differ w s1.1 one.id_counter;
      }
