-- ===== src/Aio/EventTwins.antt =====
-- aio/primitives.rs against blocking/primitives.rs: `Event` and `GroupEvent`, run to their ends.
use ruslock.Prelude.{ℕ, ◌≡◌, refl, Option, none, Bool, true, false}
use ruslock.Data.LockData.{LockData}
use ruslock.Primitive.World.{Backend, World}
use ruslock.Primitive.Lock.{Lock}
use ruslock.Primitive.Event.{Event}
use ruslock.Primitive.GroupEvent.{GroupEvent}
use ruslock.Primitive
use ruslock.Aio.Future.{complete, await_inner}
use ruslock.Aio

module _ {S : Type 0} (b : Backend S) where
  set_with_data-complete :
      (d : Option LockData) (x : Bool) (l : Lock) (w : World S)
      → complete b (Aio.Event.set_with_data b d (record { lock = l; default_set = x }, w))
        ≡ Primitive.Event.set_with_data b d (record { lock = l; default_set = x }, w)
  unfolding complete await_inner Aio.Event.set_with_data Primitive.Event.set_with_data
  set_with_data-complete d true l w = refl
  set_with_data-complete d false l w = refl

  clear-complete :
      (x : Bool) (l : Lock) (w : World S)
      → complete b (Aio.Event.clear b (record { lock = l; default_set = x }, w))
        ≡ Primitive.Event.clear b (record { lock = l; default_set = x }, w)
  unfolding complete await_inner Aio.Event.clear Primitive.Event.clear
  clear-complete true l w = refl
  clear-complete false l w = refl

  -- The results of the async and of the blocking methods of `Event` and `GroupEvent`.
  abbrev pub EventTwins :
      (d : Option LockData) (t : ℕ) (s : Event × World S) (g : GroupEvent × World S) → Type 0
  EventTwins d t s g =
      (complete b (Aio.Event.is_set b s) ≡ Primitive.Event.is_set b s)
      × (complete b (Aio.Event.set b s) ≡ Primitive.Event.set b s)
      × (complete b (Aio.Event.set_with_data b d s) ≡ Primitive.Event.set_with_data b d s)
      × (complete b (Aio.Event.clear b s) ≡ Primitive.Event.clear b s)
      × (complete b (Aio.Event.wait b t s) ≡ Primitive.Event.wait b t s)
      × (complete b (Aio.GroupEvent.is_set b g) ≡ Primitive.GroupEvent.is_set b g)
      × (complete b (Aio.GroupEvent.set b g) ≡ Primitive.GroupEvent.set b g)
      × (complete b (Aio.GroupEvent.clear b g) ≡ Primitive.GroupEvent.clear b g)
      × (complete b (Aio.GroupEvent.wakeup b d g) ≡ Primitive.GroupEvent.wakeup b d g)
      × (complete b (Aio.GroupEvent.wait b t g) ≡ Primitive.GroupEvent.wait b t g)

  -- Every async method of `Event` and `GroupEvent`, run to its end with no other task in between, does
  -- what the blocking method does: the same commands, the same result, event and world.
  pub event_methods-EventTwins :
      (d : Option LockData) (t : ℕ) (s : Event × World S) (g : GroupEvent × World S)
      → EventTwins d t s g
  unfolding complete await_inner Aio.Event.is_set Primitive.Event.is_set Aio.Event.set
      Primitive.Event.set Aio.Event.wait Primitive.Event.wait Aio.GroupEvent.is_set
      Primitive.GroupEvent.is_set Aio.GroupEvent.set Primitive.GroupEvent.set Aio.GroupEvent.clear
      Primitive.GroupEvent.clear Aio.GroupEvent.wakeup Primitive.GroupEvent.wakeup
      Aio.GroupEvent.wait Primitive.GroupEvent.wait
  event_methods-EventTwins d t (e, w) g = (
    refl,
    set_with_data-complete none e.default_set e.lock w,
    set_with_data-complete d e.default_set e.lock w,
    clear-complete e.default_set e.lock w,
    refl,
    refl,
    refl,
    refl,
    refl,
    refl,
  )
