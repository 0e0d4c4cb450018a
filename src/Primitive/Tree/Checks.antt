-- ===== src/Primitive/Tree/Checks.antt =====
-- blocking/primitives.rs: which answers to a check of `TreeLeafLock::acquire` let it go on.
use ruslock.Prelude.{◌≡◌, ◌≢◌, ◌⊎◌, inl, inr, refl}
use ruslock.Error.{
  Result, ok, err, panic, out_of_fuel, Returns, SlockError, io, protocol, client_closed,
  not_connected, command_timeout, lock_locked, lock_unlocked, lock_not_own, lock_timeout,
  lock_expired, state_error, server, lock_data, event_wait_timeout,
}
use ruslock.Protocol.Reply.{LockCommandResult}
use ruslock.Primitive.Tree.{tolerate_locked}

-- A check is good enough: it was granted, or the lock is held already.
abbrev pub Passes : Result LockCommandResult → Type 0
Passes c = (a : LockCommandResult) × ((c ≡ ok a) ⊎ (c ≡ err (lock_locked a)))

-- A check is refused with an error, and not because the lock is held already.
abbrev pub Refuses : Result LockCommandResult → SlockError → Type 0
Refuses c e = (c ≡ err e) × ((a : LockCommandResult) → e ≢ lock_locked a)

-- What `tolerate_locked` made of a check.
unfoldable pub Tolerated : Result LockCommandResult → Result (Unit {0}) → Type 0
Tolerated c (ok u) = Passes c
Tolerated c (err e) = Refuses c e
Tolerated c panic = ¬ Returns c
Tolerated c out_of_fuel = ¬ Returns c

tolerate_err : (e : SlockError) → Tolerated (err e) (tolerate_locked (err e))
unfolding Tolerated tolerate_locked
tolerate_err (io x) = (refl, λ a h. cc)
tolerate_err (protocol x) = (refl, λ a h. cc)
tolerate_err client_closed = (refl, λ a h. cc)
tolerate_err not_connected = (refl, λ a h. cc)
tolerate_err command_timeout = (refl, λ a h. cc)
tolerate_err (lock_unlocked x) = (refl, λ a h. cc)
tolerate_err (lock_not_own x) = (refl, λ a h. cc)
tolerate_err (lock_timeout x) = (refl, λ a h. cc)
tolerate_err (lock_expired x) = (refl, λ a h. cc)
tolerate_err (state_error x) = (refl, λ a h. cc)
tolerate_err (server x) = (refl, λ a h. cc)
tolerate_err (lock_data x) = (refl, λ a h. cc)
tolerate_err event_wait_timeout = (refl, λ a h. cc)
tolerate_err (lock_locked x) = (x, inr refl)

pub tolerate_locked-Tolerated : (c : Result LockCommandResult) → Tolerated c (tolerate_locked c)
unfolding Tolerated tolerate_locked
tolerate_locked-Tolerated (ok a) = (a, inl refl)
tolerate_locked-Tolerated (err e) = tolerate_err e
tolerate_locked-Tolerated panic = λ h. h
tolerate_locked-Tolerated out_of_fuel = λ h. h
