-- ===== src/Tests/Locks.antt =====
-- The primitives against a client with listed answers.
use ruslock.Prelude.{◌≡◌, refl, arith, [], ◌∷◌, false, none, some}
use ruslock.Key.{IsArray16}
use ruslock.Error.{ok}
use ruslock.Constants.{command_type_lock, command_type_unlock}
use ruslock.Protocol.Reply.{CommandResult}
use ruslock.Primitive.World.{World}
use ruslock.Primitive.Lock.{
  acquire, acquire_with_flags, release, release_with_flags, release_head_to_lock_wait,
}
use ruslock.Primitive.Lock.Commands.{
  ResultTable, check_result-ResultTable, Exchange, answer_to, acquire_release-Exchange,
  LockedThenUnlocked, release-acquire,
}
use ruslock.Primitive.Event.{Event, set_with_data, clear}
use ruslock.Primitive.Event.Pairing.{SetThenClear, clear-set}
use ruslock.Primitive.Locks.{
  ReadWriteLock, acquire_read, release_read, new_semaphore, semaphore_acquire, semaphore_release,
}
use ruslock.Primitive.Locks.Readers.{reader, release_read-acquire_read, Unread, release_read-Unread}
use ruslock.Primitive.Locks.Capacity.{TakenAndFreed, semaphore_release-semaphore_acquire}
use ruslock.Primitive.GroupEvent.{GroupEvent, encode_group_event_lock_id, version_of, wait, wakeup}
use ruslock.Primitive.GroupEvent.Versions.{
  client_of, group_id_fields, wait_lock, Waited, wait-Waited, wakeup_reply, wakeup_version,
}
use ruslock.Primitive.Tree.{TreeLeafLock, leaf_acquire}
use ruslock.Primitive.Tree.Rollback.{RunBelow, leaf_acquire-LeafRun}
use ruslock.Tests.Script.{Script, scripted, world_of, id_of, key_of, reply_of, answer, a_lock}

abbrev two_answers : World Script
two_answers = world_of (answer 0 ∷ answer 6 ∷ [])

check_result-ResultTable_example : ResultTable (reply_of 8 (id_of 1))
check_result-ResultTable_example = check_result-ResultTable (reply_of 8 (id_of 1))

acquire_release-Exchange_example :
    Exchange scripted
      (answer_to scripted command_type_lock 2 none a_lock two_answers)
      a_lock
      (acquire_with_flags scripted 2 none (a_lock, two_answers)).1.0
      (acquire_with_flags scripted 2 none (a_lock, two_answers)).0
    × Exchange scripted
        (answer_to scripted command_type_unlock 2 none a_lock two_answers)
        a_lock
        (release_with_flags scripted 2 none (a_lock, two_answers)).1.0
        (release_with_flags scripted 2 none (a_lock, two_answers)).0
acquire_release-Exchange_example = acquire_release-Exchange scripted 2 none a_lock two_answers

release-acquire_example :
    LockedThenUnlocked scripted a_lock two_answers
      (release scripted (acquire scripted (a_lock, two_answers)).1).1.1
release-acquire_example = release-acquire scripted a_lock two_answers

abbrev an_event : Event
an_event = record { lock = a_lock; default_set = false }

clear-set_example :
    SetThenClear scripted an_event two_answers
      (set_with_data scripted none (an_event, two_answers)).1.1
      (clear scripted (set_with_data scripted none (an_event, two_answers)).1).1.1
    × ((clear scripted (set_with_data scripted none (an_event, two_answers)).1).1.0 ≡ an_event)
clear-set_example = clear-set scripted none an_event two_answers (refl, omega arith)

abbrev no_readers : ReadWriteLock
no_readers = record {
  key = 65 ∷ [];
  timeout = 10;
  expired = 20;
  write_lock = a_lock;
  read_locks = [];
}

granted_read : (acquire_read scripted (no_readers, two_answers)).0 ≡ ok (reply_of 0 (id_of 1))
unfolding acquire_read
granted_read = refl

release_read-acquire_read_example :
    ((release_read scripted (acquire_read scripted (no_readers, two_answers)).1).1.0 ≡ no_readers)
    × LockedThenUnlocked scripted
        (reader scripted no_readers two_answers).0
        (reader scripted no_readers two_answers).1
        (release_read scripted (acquire_read scripted (no_readers, two_answers)).1).1.1
release_read-acquire_read_example =
    release_read-acquire_read scripted no_readers two_answers (reply_of 0 (id_of 1)) granted_read

abbrev one_reader : ReadWriteLock
one_reader = record no_readers { read_locks = a_lock ∷ [] }

release_read-Unread_example :
    Unread scripted one_reader two_answers
      (release_read scripted (one_reader, two_answers)).1.0
      (release_read scripted (one_reader, two_answers)).1.1
      (release_read scripted (one_reader, two_answers)).0
release_read-Unread_example = release_read-Unread scripted one_reader two_answers

group_id_fields_example :
    IsArray16 (encode_group_event_lock_id 7 300).bytes
    × (version_of (encode_group_event_lock_id 7 300) ≡ 300)
    × (client_of (encode_group_event_lock_id 7 300) ≡ 7)
group_id_fields_example = group_id_fields 7 300 (omega arith) (omega arith)

abbrev a_group : GroupEvent
a_group = record { lock = a_lock; client_id = 7; version_id = 3 }

wait-Waited_example :
    Waited scripted a_group
      (wait scripted 5 (a_group, two_answers)).1.0
      (acquire scripted (wait_lock scripted 5 a_group two_answers, two_answers)).0
      (wait scripted 5 (a_group, two_answers)).0
wait-Waited_example = wait-Waited scripted 5 a_group two_answers (omega arith)

abbrev woken_up : World Script
woken_up = world_of (ok (CommandResult.lock (reply_of 0 (encode_group_event_lock_id 7 300))) ∷ [])

woken_up-reply :
    (wakeup_reply scripted none a_group woken_up).0
    ≡ ok (reply_of 0 (encode_group_event_lock_id 7 300))
unfolding release_head_to_lock_wait
woken_up-reply = refl

wakeup_version_example :
    ((wakeup scripted none (a_group, woken_up)).0 ≡ ok tt)
    × ((wakeup scripted none (a_group, woken_up)).1.0.version_id ≡ 300)
wakeup_version_example =
    wakeup_version scripted none a_group woken_up (reply_of 0 (encode_group_event_lock_id 7 300)) 7
      300 (omega arith) (λ h. omega arith) woken_up-reply refl

abbrev a_leaf : TreeLeafLock
a_leaf = record {
  tree_lock = record { lock = a_lock; parent_key = some (key_of 6) };
  lock = a_lock;
}

abbrev refused_leaf : World Script
refused_leaf = world_of (answer 5 ∷ answer 0 ∷ answer 8 ∷ answer 0 ∷ answer 0 ∷ [])

leaf_acquire-LeafRun_example :
    RunBelow scripted a_leaf (key_of 6) refused_leaf (leaf_acquire scripted (a_leaf, refused_leaf))
leaf_acquire-LeafRun_example = leaf_acquire-LeafRun scripted a_leaf (key_of 6) refused_leaf refl

semaphore_release-semaphore_acquire_example :
    TakenAndFreed scripted
      (65 ∷ [])
      3
      two_answers
      (semaphore_release scripted
        (semaphore_acquire scripted (new_semaphore scripted (65 ∷ []) 3 10 20, two_answers)).1).1.1
semaphore_release-semaphore_acquire_example =
    semaphore_release-semaphore_acquire scripted (65 ∷ []) 3 10 20 two_answers
