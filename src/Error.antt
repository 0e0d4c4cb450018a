-- ===== src/Error.antt =====
-- error.rs: the errors, and the outcome of a call. A message that the source formats is a
-- constructor with the values that it prints.
use ruslock.Prelude.{ℕ, List, ◌≡◌, refl}
use ruslock.Protocol.Reply.{LockCommandResult}

-- What the source keeps of a `std::io::Error`: its kind, by a number, and its text.
pub record IoError : Type 0 where
  pub kind : ℕ
  pub message : List ℕ

pub data ProtocolMessage : Type 0 where
  unknown_magic unknown_version unknown_command_type : ℕ → ProtocolMessage
  did_not_resolve : List ℕ → ProtocolMessage
  expected_init_result expected_lock_result : ProtocolMessage

pub data LockDataMessage : Type 0 where
  pipeline_is_empty length_overflow length_exceeds_u32 : LockDataMessage
  data_is_missing no_read_lock : LockDataMessage
  shorter_than_header property_length_missing u32_exceeds_data : LockDataMessage
  list_value_exceeds map_key_exceeds map_value_length_missing map_value_exceeds : LockDataMessage
  invalid_utf8_data invalid_utf8_item invalid_utf8_key invalid_utf8_map_value : LockDataMessage

pub data SlockError : Type 0 where
  io : IoError → SlockError
  protocol : ProtocolMessage → SlockError
  client_closed not_connected command_timeout : SlockError
  lock_locked lock_unlocked lock_not_own : LockCommandResult → SlockError
  lock_timeout lock_expired state_error : LockCommandResult → SlockError
  server : ℕ → SlockError
  lock_data : LockDataMessage → SlockError
  event_wait_timeout : SlockError

-- How a call ends. `panic` is a Rust panic (an index or a slice out of range); `out_of_fuel` is no
-- outcome of the program, it marks a loop of the model that was given too few rounds.
pub data Result {ℓ} (T : Type ℓ) : Type ℓ where
  ok : T → Result T
  err : SlockError → Result T
  panic out_of_fuel : Result T

module _ {ℓ ι} {X : Type ℓ} {Y : Type ι} where
  -- `?` on a call, with what comes behind it.
  infixl 5 ◌>>=◌
  abbrev pub ◌>>=◌ : Result X → (X → Result Y) → Result Y
  ok x >>= next = next x
  err failure >>= next = err failure
  panic >>= next = panic
  out_of_fuel >>= next = out_of_fuel

-- The same where the call gives `()`.
infixl 5 ◌>>◌
abbrev pub ◌>>◌ {ι} : {Y : Type ι} → Result (Unit {0}) → Result Y → Result Y
call >> next = call >>= λ unit. next

-- The call came back with a value or an error.
abbrev pub Returns {ℓ} : {A : Type ℓ} → Result A → Type 0
Returns (ok a) = Unit
Returns (err e) = Unit
Returns panic = ⊥
Returns out_of_fuel = ⊥

-- To split on a computed outcome and keep the equation.
pub data Outcome {ℓ} {A : Type ℓ} (r : Result A) : Type ℓ where
  is_ok : (a : A) → r ≡ ok a → Outcome r
  is_err : (e : SlockError) → r ≡ err e → Outcome r
  is_panic : r ≡ panic → Outcome r
  is_out_of_fuel : r ≡ out_of_fuel → Outcome r

pub outcome {ℓ} : {A : Type ℓ} (r : Result A) → Outcome r
outcome (ok a) = is_ok a refl
outcome (err e) = is_err e refl
outcome panic = is_panic refl
outcome out_of_fuel = is_out_of_fuel refl

module _ {ℓ ι} {X : Type ℓ} {Y : Type ι} where
  -- Inversion of a bind that succeeded.
  pub bind-eq-ok :
      (call : Result X) (next : X → Result Y) {y : Y}
      → (call >>= next) ≡ ok y
      → (x : X) × (call ≡ ok x) × (next x ≡ ok y)
  bind-eq-ok (ok x) next done = (x, refl, done)
  bind-eq-ok (err failure) next done = cc
  bind-eq-ok panic next done = cc
  bind-eq-ok out_of_fuel next done = cc

  pub Returns-bind :
      (call : Result X) (next : X → Result Y)
      → Returns call
      → ((x : X) → call ≡ ok x → Returns (next x))
      → Returns (call >>= next)
  Returns-bind (ok x) next returned behind = behind x refl
  Returns-bind (err failure) next returned behind = tt
  Returns-bind panic next returned behind = returned
  Returns-bind out_of_fuel next returned behind = returned
