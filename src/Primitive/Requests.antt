-- ===== src/Primitive/Requests.antt =====
-- blocking/database.rs and primitives.rs: what the first acquire of a primitive that a database has
-- made asks the server for.
use ruslock.Prelude.{ℕ, ◌^◌, ◌<◌, ◌-◌, ◌≡◌, refl, ap, ◌∙◌, arith, List, [], ◌∷◌, ◌++◌, none, bit_or}
use ruslock.Constants.{command_type_lock, timeout_flag_rcount_is_priority}
use ruslock.Key.{Key16, new_key}
use ruslock.Time.{PackedTime, with_flags, value, flags, merge_flags}
use ruslock.Time.Fields.{with_flags_fields, merge_flags_fields}
use ruslock.Protocol.Command.{Command, LockCommand}
use ruslock.Primitive.World.{Backend, World, fresh_id, database_timeout, database_expired}
use ruslock.Primitive.Lock.{
  Lock, acquire, new_lock, set_count, set_r_count, lock_command, data_flag,
}
use ruslock.Primitive.Lock.Commands.{request, acquire-OneMore}
use ruslock.Primitive.Locks.{
  ReentrantLock, Semaphore, ReadWriteLock, PriorityLock, MaxConcurrentFlow, reentrant_acquire,
  semaphore_acquire, acquire_read, acquire_write, priority_acquire, flow_acquire, new_reentrant,
  new_semaphore, new_read_write, new_priority, new_max_concurrent,
}
use ruslock.Primitive.Database.{new_database}
use ruslock.Primitive

-- A time with this value and these flags.
pub record HasFields (t : PackedTime) (v f : ℕ) : Type 0 where
  pub value_part : value t ≡ v
  pub flags_part : flags t ≡ f

-- A world in which nothing was sent, of database 0 without default flags.
pub record IsNew {S : Type 0} (w : World S) : Type 0 where
  pub sent : w.sent ≡ []
  pub db_id : w.db_id ≡ 0
  pub timeout_flags : w.timeout_flags ≡ 0
  pub expired_flags : w.expired_flags ≡ 0

-- One lock command was sent, to database 0, for this key, with these counts, without flags or data,
-- with this wait and its flags, and with this hold without flags.
pub record Asked {S : Type 0} (key : Key16) (count r_count t t_flags e : ℕ) (w : World S)
    : Type 0 where
  pub command : LockCommand
  pub sent : w.sent ≡ Command.lock command ∷ []
  pub command_type : command.command_type ≡ command_type_lock
  pub flag : command.flag ≡ 0
  pub db_id : command.db_id ≡ 0
  pub lock_key : command.lock_key ≡ key
  pub count_field : command.count ≡ count
  pub r_count_field : command.r_count ≡ r_count
  pub timeout : HasFields command.timeout t t_flags
  pub expired : HasFields command.expired e 0
  pub contents : command.contents ≡ none

module _ {S : Type 0} (b : Backend S) where
  acquire-Asked :
      (l : Lock) (w : World S) (t t_flags e : ℕ)
      → w.sent ≡ []
      → w.db_id ≡ 0
      → HasFields l.timeout t t_flags
      → HasFields l.expired e 0
      → Asked l.lock_key l.count l.r_count t t_flags e (acquire b (l, w)).1.1
  unfolding acquire lock_command data_flag
  acquire-Asked l w t t_flags e nothing zeroth timeout expired = record {
    command = request b command_type_lock 0 none l w;
    sent =
        (acquire-OneMore b 0 none l w).sent
        ∙ ap (λ xs. xs ++ (Command.lock (request b command_type_lock 0 none l w) ∷ [])) nothing;
    command_type = refl;
    flag = refl;
    db_id = zeroth;
    lock_key = refl;
    count_field = refl;
    r_count_field = refl;
    timeout = timeout;
    expired = expired;
    contents = refl;
  }

  -- A lock made by `Lock::new` has the times of its arguments, without flags.
  new_lock-times :
      (key : List ℕ) (t e : ℕ) (w : World S)
      → IsNew w
      → t < 2 ^ 16
      → e < 2 ^ 16
      → HasFields (new_lock b key t e w).0.timeout t 0
        × HasFields (new_lock b key t e w).0.expired e 0
  unfolding new_lock database_timeout database_expired
  new_lock-times key t e w new t_fits e_fits =
      rw (new.timeout_flags, new.expired_flags) (fields t t_fits, fields e e_fits)
    where
      fields : (v : ℕ) → v < 2 ^ 16 → HasFields (with_flags v 0) v 0
      fields v fits =
          let (u32, value_part, flags_part) = with_flags_fields v 0 fits (omega arith) in
          record { value_part = value_part; flags_part = flags_part }

  -- The first acquire of a new lock with these counts.
  new_lock-Asked :
      (key : List ℕ) (count r_count t e : ℕ) (w : World S)
      → IsNew w
      → t < 2 ^ 16
      → e < 2 ^ 16
      → Asked
          (new_key b.md5 key)
          count
          r_count
          t
          0
          e
          (let (l, w1) = new_lock b key t e w in
            acquire b (record l { count = count; r_count = r_count }, w1)).1.1
  new_lock-Asked key count r_count t e w new t_fits e_fits =
      let (timeout, expired) = new_lock-times key t e w new t_fits e_fits in
      unfold new_lock fresh_id in
      acquire-Asked (record (new_lock b key t e w).0 { count = count; r_count = r_count })
        (new_lock b key t e w).1 t 0 e new.sent new.db_id timeout expired

  -- The same of a lock whose `r_count` is a priority.
  priority_lock-Asked :
      (key : List ℕ) (priority t e : ℕ) (w : World S)
      → IsNew w
      → t < 2 ^ 16
      → e < 2 ^ 16
      → Asked
          (new_key b.md5 key)
          0
          priority
          t
          timeout_flag_rcount_is_priority
          e
          (let (l, w1) = new_lock b key t e w in
            acquire b (
              record l {
                r_count = priority;
                timeout = merge_flags l.timeout timeout_flag_rcount_is_priority;
              },
              w1,
            )).1.1
  priority_lock-Asked key priority t e w new t_fits e_fits =
      let (timeout, expired) = new_lock-times key t e w new t_fits e_fits in
      let (value_part, flags_part, set, again) =
        merge_flags_fields (new_lock b key t e w).0.timeout timeout_flag_rcount_is_priority
          (omega arith) in
      unfold new_lock fresh_id in
      acquire-Asked
        (record (new_lock b key t e w).0 {
          r_count = priority;
          timeout = merge_flags (new_lock b key t e w).0.timeout timeout_flag_rcount_is_priority;
        })
        (new_lock b key t e w).1 t timeout_flag_rcount_is_priority e new.sent new.db_id
        (record {
          value_part = value_part ∙ timeout.value_part;
          flags_part =
              flags_part ∙ ap (λ f. bit_or f timeout_flag_rcount_is_priority) timeout.flags_part;
        })
        expired

  new_lock-IsNew : (key : List ℕ) (t e : ℕ) (w : World S) → IsNew w → IsNew (new_lock b key t e w).1
  unfolding new_lock fresh_id
  new_lock-IsNew key t e w new = record {
    sent = new.sent;
    db_id = new.db_id;
    timeout_flags = new.timeout_flags;
    expired_flags = new.expired_flags;
  }

-- One primitive of each kind, with the world of its database where the factory reaches for it.
pub record Made (S : Type 0) : Type 0 where
  pub a_lock : Lock × World S
  pub a_reentrant_lock : ReentrantLock × World S
  pub a_semaphore : Semaphore × World S
  pub a_read_write_lock : ReadWriteLock × World S
  pub a_priority_lock : PriorityLock × World S
  pub a_max_concurrent_flow : MaxConcurrentFlow × World S

-- What the first acquire of each of them asks for.
pub record FirstRequests {S : Type 0} (b : Backend S) (key : Key16) (n priority t e : ℕ)
    (m : Made S) : Type 0 where
  pub of_lock : Asked key 0 0 t 0 e (acquire b m.a_lock).1.1
  pub of_reentrant_lock : Asked key 0 255 t 0 e (reentrant_acquire b m.a_reentrant_lock).1.1
  pub of_semaphore : Asked key (n - 1) 0 t 0 e (semaphore_acquire b m.a_semaphore).1.1
  pub of_reader : Asked key 65535 0 t 0 e (acquire_read b m.a_read_write_lock).1.1
  pub of_writer : Asked key 0 0 t 0 e (acquire_write b m.a_read_write_lock).1.1
  pub of_priority_lock :
      Asked key 0 priority t timeout_flag_rcount_is_priority e
        (priority_acquire b m.a_priority_lock).1.1
  pub of_max_concurrent_flow :
      Asked key (n - 1) 0 t 0 e (flow_acquire b m.a_max_concurrent_flow).1.1

module _ {S : Type 0} (b : Backend S) (key : List ℕ) (n priority t e : ℕ) where
  -- Made by a database.
  abbrev pub of_database : World S → Made S
  of_database w = record {
    a_lock = Primitive.Database.lock b key t e w;
    a_reentrant_lock = Primitive.Database.reentrant_lock b key t e w;
    a_semaphore = (Primitive.Database.semaphore b key n t e w, w);
    a_read_write_lock = Primitive.Database.read_write_lock b key t e w;
    a_priority_lock = Primitive.Database.priority_lock b key priority t e w;
    a_max_concurrent_flow = Primitive.Database.max_concurrent_flow b key n t e w;
  }

  pub of_database-FirstRequests :
      (w : World S)
      → IsNew w
      → t < 2 ^ 16
      → e < 2 ^ 16
      → FirstRequests b (new_key b.md5 key) n priority t e (of_database w)
  unfolding new_reentrant new_semaphore new_read_write new_priority new_max_concurrent
      reentrant_acquire semaphore_acquire acquire_read acquire_write priority_acquire flow_acquire
      set_count set_r_count Primitive.Database.lock Primitive.Database.reentrant_lock
      Primitive.Database.semaphore Primitive.Database.read_write_lock
      Primitive.Database.priority_lock Primitive.Database.max_concurrent_flow
  of_database-FirstRequests w new t_fits e_fits =
      let (l, w1) = new_lock b key t e w in
      let asked : (count r_count : ℕ)
          → Asked (new_key b.md5 key) count r_count t 0 e
              (acquire b (record l { count = count; r_count = r_count }, w1)).1.1 =
        λ count r_count. new_lock-Asked b key count r_count t e w new t_fits e_fits in
      record {
        of_lock = unfold new_lock in asked 0 0;
        of_reentrant_lock = unfold new_lock in asked 0 255;
        of_semaphore = unfold new_lock in asked (n - 1) 0;
        of_reader =
            unfold new_lock in
            new_lock-Asked b key 65535 0 t e w1 (new_lock-IsNew b key t e w new) t_fits e_fits;
        of_writer = unfold new_lock in asked 0 0;
        of_priority_lock =
            unfold new_lock in priority_lock-Asked b key priority t e w new t_fits e_fits;
        of_max_concurrent_flow = unfold new_lock in asked (n - 1) 0;
      }
