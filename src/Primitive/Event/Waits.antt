-- ===== src/Primitive/Event/Waits.antt =====
-- blocking/primitives.rs: what the waits of `Event` and `GroupEvent` make of an outcome, and which
-- commands an `Event` sends.
use ruslock.Prelude.{◌≡◌, ◌≢◌, refl, ap}
use ruslock.Error.{
  SlockError, Result, ok, err, panic, out_of_fuel, io, command_timeout, lock_timeout,
}
use ruslock.Protocol.Reply.{LockCommandResult}
use ruslock.Primitive.Event.{wait_result, forget}

-- An outcome that is neither a success nor a timeout of the lock or of the command.
pub record IsWaitFailure {ℓ} {A : Type ℓ} (r : Result A) : Type ℓ where
  pub no_success : (a : A) → r ≢ ok a
  pub no_lock_timeout : (a : LockCommandResult) → r ≢ err (lock_timeout a)
  pub no_command_timeout : r ≢ err command_timeout

same_error : {e e' : SlockError} (r : Result (Unit {0})) → r ≡ err e → r ≡ err e' → e ≡ e'
same_error r p q = cc

module _ {ℓ} {A : Type ℓ} where
  wait_error : (e : SlockError) → IsWaitFailure (wait_result {A = A} (err e))
  unfolding wait_result
  wait_error (io x) = record {
    no_success = λ a h. cc;
    no_lock_timeout = λ a h. cc;
    no_command_timeout = λ h. cc;
  }
  wait_error (lock_timeout r) = record {
    no_success = λ a h. cc;
    no_lock_timeout = λ a h. cc;
    no_command_timeout = λ h. cc;
  }
  wait_error command_timeout = record {
    no_success = λ a h. cc;
    no_lock_timeout = λ a h. cc;
    no_command_timeout = λ h. cc;
  }
  wait_error e = record {
    no_success = λ a h. cc;
    no_lock_timeout = λ a h. cc;
    no_command_timeout = λ h. cc;
  }

  -- `wait_result` makes no success of a failure.
  pub wait_result-failed : (r : Result A) → ((a : A) → r ≢ ok a) → (a : A) → wait_result r ≢ ok a
  unfolding wait_result
  wait_result-failed (ok a) h = absurd (h a refl)
  wait_result-failed (err e) h = (wait_error e).no_success
  wait_result-failed panic h = λ a p. cc
  wait_result-failed out_of_fuel h = λ a p. cc

  -- A wait whose reply is no success fails, and never with one of the two timeouts.
  pub wait_failure : (r : Result A) → ((a : A) → r ≢ ok a) → IsWaitFailure (forget (wait_result r))
  unfolding wait_result forget
  wait_failure (ok a) h = absurd (h a refl)
  wait_failure (err e) h = forget_failure (wait_result (err e)) (wait_error e)
    where
      forget_failure : (r : Result A) → IsWaitFailure r → IsWaitFailure (forget r)
      forget_failure (ok a) f = absurd (f.no_success a refl)
      forget_failure (err e) f = record {
        no_success = λ a h. cc;
        no_lock_timeout = λ a h. f.no_lock_timeout a (ap err (same_error _ refl h));
        no_command_timeout = λ h. f.no_command_timeout (ap err (same_error _ refl h));
      }
      forget_failure panic f = record {
        no_success = λ a h. cc;
        no_lock_timeout = λ a h. cc;
        no_command_timeout = λ h. cc;
      }
      forget_failure out_of_fuel f = record {
        no_success = λ a h. cc;
        no_lock_timeout = λ a h. cc;
        no_command_timeout = λ h. cc;
      }
  wait_failure panic h = record {
    no_success = λ a h. cc;
    no_lock_timeout = λ a h. cc;
    no_command_timeout = λ h. cc;
  }
  wait_failure out_of_fuel h = record {
    no_success = λ a h. cc;
    no_lock_timeout = λ a h. cc;
    no_command_timeout = λ h. cc;
  }
