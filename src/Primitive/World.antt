-- ===== src/Primitive/World.antt =====
-- blocking/database.rs, and what the primitives reach through a database: the client behind it, the
-- clock, the random generator and the process-wide id counter.
use ruslock.Prelude.{ℕ, List, [], ◌∷◌, ◌++◌}
use ruslock.Error.{Result, ok, err, panic, out_of_fuel}
use ruslock.Time.{PackedTime, with_flags}
use ruslock.Protocol.Id.{Id16, new_id}
use ruslock.Protocol.Command.{Command}
use ruslock.Protocol.Reply.{CommandResult}

-- The client's `send_command` and what the standard library and the crates give. Other threads and
-- the server act through the state `S`.
pub record Backend (S : Type 0) : Type 0 where
  pub send : Command → S → Result CommandResult × S
  pub timestamp : S → ℕ × S
  pub next_u64 : S → ℕ × S
  pub md5 : List ℕ → List ℕ

-- The state around the primitives of one database. `timeout_flags` and `expired_flags` are the
-- atomics that the clones of a `Database` share, `db_id` its number. `sent` is no state of the
-- program: it records the commands given to the client, oldest first, for the theorems. The ids that
-- other threads and `open` draw from the process-wide counter are not counted in `id_counter`.
pub record World (S : Type 0) : Type 0 where
  pub env : S
  pub id_counter : ℕ
  pub db_id : ℕ
  pub timeout_flags : ℕ
  pub expired_flags : ℕ
  pub sent : List Command

-- A method that may fail; what it changed before an error stays changed.
abbrev pub Act {ℓ} : Type ℓ → Type ℓ → Type ℓ
Act Σ A = Σ → Result A × Σ

module _ {ℓ} {Σ A B : Type ℓ} where
  abbrev pub continue : Result A → (A → Act Σ B) → Act Σ B
  continue (ok a) f s = f a s
  continue (err e) f s = (err e, s)
  continue panic f s = (panic, s)
  continue out_of_fuel f s = (out_of_fuel, s)

  infixl 5 ◌>>=◌
  abbrev pub ◌>>=◌ : Act Σ A → (A → Act Σ B) → Act Σ B
  ◌>>=◌ m f s = let (r, s') = m s in continue r f s'

module _ {S : Type 0} where
  -- `Database::set_default_timeout_flags`.
  unfoldable pub set_default_timeout_flags : ℕ → World S → World S
  set_default_timeout_flags flags w = record w { timeout_flags = flags }

  -- `Database::set_default_expired_flags`.
  unfoldable pub set_default_expired_flags : ℕ → World S → World S
  set_default_expired_flags flags w = record w { expired_flags = flags }

  -- `Database::timeout`.
  unfoldable pub database_timeout : ℕ → World S → PackedTime
  database_timeout value w = with_flags value w.timeout_flags

  -- `Database::expired`.
  unfoldable pub database_expired : ℕ → World S → PackedTime
  database_expired value w = with_flags value w.expired_flags

module _ {S : Type 0} (b : Backend S) where
  -- `Id16::new()`.
  unfoldable pub fresh_id : World S → Id16 × World S
  fresh_id w =
      let (t, e) = b.timestamp w.env in
      let (r, e') = b.next_u64 e in
      let (id, counter) = new_id t r w.id_counter in
      (id, record w { env = e'; id_counter = counter })

  -- `Database::send_command`.
  unfoldable pub send_command : Command → Act (World S) CommandResult
  send_command command w =
      let (r, e) = b.send command w.env in
      (r, record w { env = e; sent = w.sent ++ (command ∷ []) })
