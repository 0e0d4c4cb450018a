-- ===== src/Primitive/Event/Pairing.antt =====
-- blocking/primitives.rs: which commands the `set` and the `clear` of an `Event` send.
use ruslock.Prelude.{
  ℕ, ◌≡◌, refl, sym, ap, ◌∙◌, Bool, true, false, [], ◌∷◌, ◌++◌, Option, none, if◌then◌else◌,
}
use mathlib.Core.Path.{subst}
use mathlib.Core.List.{append_assoc}
use ruslock.Constants.{command_type_lock, command_type_unlock, lock_flag_update_when_locked}
use ruslock.Key.{IsArray16, key_as_bytes}
use ruslock.Key.Normal.{full_key}
use ruslock.Data.LockData.{LockData}
use ruslock.Protocol.Id.{id_from_bytes}
use ruslock.Protocol.Command.{Command, LockCommand}
use ruslock.Primitive.World.{Backend, World}
use ruslock.Primitive.Lock.{Lock, lock_command, with_lock_id, update, release}
use ruslock.Primitive.Lock.Commands.{request, OneMore, acquire-OneMore, release-OneMore}
use ruslock.Primitive.Event.{Event, event_lock, set_with_data, clear}

-- The command type of `set`, and of `clear`.
abbrev pub set_type : Bool → ℕ
set_type default_set = if default_set then command_type_unlock else command_type_lock

abbrev pub clear_type : Bool → ℕ
clear_type default_set = if default_set then command_type_lock else command_type_unlock

-- The count of both.
abbrev pub count_of : Bool → ℕ
count_of default_set = if default_set then 0 else 1

abbrev event : Lock → Bool → Event
event l default_set = record { lock = l; default_set = default_set }

module _ {S : Type 0} (b : Backend S) where
  -- One command of the given type more was sent, on the event's key, under that key as its id.
  pub record Sent (e : Event) (kind : ℕ) (w w' : World S) : Type 0 where
    pub command : LockCommand
    pub sent : w'.sent ≡ w.sent ++ (Command.lock command ∷ [])
    pub command_type : command.command_type ≡ kind
    pub key : command.lock_key ≡ e.lock.lock_key
    pub id : command.lock_id.bytes ≡ key_as_bytes e.lock.lock_key
    pub count : command.count ≡ count_of e.default_set

  event_lock-key :
      (e : Event) (count : ℕ) (w : World S)
      → IsArray16 e.lock.lock_key.bytes
      → (event_lock b e count w).lock_key ≡ e.lock.lock_key
  unfolding event_lock with_lock_id key_as_bytes
  event_lock-key e count w h =
      ap (λ bytes. record { bytes = bytes }) (full_key b.md5 e.lock.lock_key.bytes h.0)

  event_lock-id :
      (e : Event) (count : ℕ) (w : World S)
      → (event_lock b e count w).lock_id.bytes ≡ key_as_bytes e.lock.lock_key
  unfolding event_lock with_lock_id id_from_bytes
  event_lock-id e count w = refl

  event_lock-count : (e : Event) (count : ℕ) (w : World S) → (event_lock b e count w).count ≡ count
  unfolding event_lock with_lock_id
  event_lock-count e count w = refl

  request-Sent :
      (e : Event) (command_type flag count : ℕ) (contents : Option LockData) (w w' : World S)
      → IsArray16 e.lock.lock_key.bytes
      → count ≡ count_of e.default_set
      → OneMore b (request b command_type flag contents (event_lock b e count w) w) w w'
      → Sent e command_type w w'
  unfolding lock_command
  request-Sent e command_type flag count contents w w' h same one = record {
    command = request b command_type flag contents (event_lock b e count w) w;
    sent = one.sent;
    command_type = refl;
    key = event_lock-key e count w h;
    id = event_lock-id e count w;
    count = event_lock-count e count w ∙ same;
  }

  set-Sent :
      (contents : Option LockData) (l : Lock) (default_set : Bool) (w : World S)
      → IsArray16 l.lock_key.bytes
      → Sent
          (event l default_set)
          (set_type default_set)
          w
          (set_with_data b contents (event l default_set, w)).1.1
  unfolding set_with_data update
  set-Sent contents l true w h =
      request-Sent (event l true) command_type_unlock 0 0 contents w _ h refl
        (release-OneMore b 0 contents (event_lock b (event l true) 0 w) w)
  set-Sent contents l false w h =
      request-Sent (event l false) command_type_lock lock_flag_update_when_locked 1 contents w _ h
        refl
        (acquire-OneMore b lock_flag_update_when_locked contents (event_lock b (event l false) 1 w)
          w)

  clear-Sent :
      (l : Lock) (default_set : Bool) (w : World S)
      → IsArray16 l.lock_key.bytes
      → Sent (event l default_set) (clear_type default_set) w (clear b (event l default_set, w)).1.1
  unfolding clear update release
  clear-Sent l true w h =
      request-Sent (event l true) command_type_lock lock_flag_update_when_locked 0 none w _ h refl
        (acquire-OneMore b lock_flag_update_when_locked none (event_lock b (event l true) 0 w) w)
  clear-Sent l false w h =
      request-Sent (event l false) command_type_unlock 0 1 none w _ h refl
        (release-OneMore b 0 none (event_lock b (event l false) 1 w) w)

  set_keeps :
      (contents : Option LockData) (l : Lock) (default_set : Bool) (w : World S)
      → (set_with_data b contents (event l default_set, w)).1.0 ≡ event l default_set
  unfolding set_with_data
  set_keeps contents l true w = refl
  set_keeps contents l false w = refl

  clear_keeps :
      (l : Lock) (default_set : Bool) (w : World S)
      → (clear b (event l default_set, w)).1.0 ≡ event l default_set
  unfolding clear
  clear_keeps l true w = refl
  clear_keeps l false w = refl

  -- What a `set` and a `clear` in a row have sent.
  pub record SetThenClear (e : Event) (w w1 w2 : World S) : Type 0 where
    pub first : Sent e (set_type e.default_set) w w1
    pub second : Sent e (clear_type e.default_set) w1 w2
    pub sent : w2.sent ≡ w.sent ++ (Command.lock first.command ∷ Command.lock second.command ∷ [])
    pub same_id : first.command.lock_id.bytes ≡ second.command.lock_id.bytes

  -- A `set`, with data or without, and the `clear` behind it, whatever the client answers to either:
  -- each sends one command under the key of the event, with that key as lock id and the same count.
  -- An event that is set by default is set by an unlock and cleared by a lock, the others the other
  -- way round. Neither changes the event.
  pub clear-set :
      (contents : Option LockData) (e : Event) (w : World S)
      → IsArray16 e.lock.lock_key.bytes
      → SetThenClear e w
          (set_with_data b contents (e, w)).1.1
          (clear b (set_with_data b contents (e, w)).1).1.1
        × ((clear b (set_with_data b contents (e, w)).1).1.0 ≡ e)
  clear-set contents e w h =
      let w1 : World S = (set_with_data b contents (e, w)).1.1 in
      let first : Sent e (set_type e.default_set) w w1 =
        set-Sent contents e.lock e.default_set w h in
      let second : Sent e (clear_type e.default_set) w1 (clear b (e, w1)).1.1 =
        clear-Sent e.lock e.default_set w1 h in
      subst (λ kept. SetThenClear e w w1 (clear b (kept, w1)).1.1 × ((clear b (kept, w1)).1.0 ≡ e))
        (sym (set_keeps contents e.lock e.default_set w))
        (
          record {
            first = first;
            second = second;
            sent = second.sent ∙ rw (first.sent) (append_assoc w.sent _ _);
            same_id = first.id ∙ sym second.id;
          },
          clear_keeps e.lock e.default_set w1,
        )
