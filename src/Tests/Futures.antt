-- ===== src/Tests/Futures.antt =====
-- Async methods against a script of answers.
use ruslock.Prelude.{[], ◌∷◌, none, some, refl, false, true, ◌≡◌}
use ruslock.Data.LockData.{LockData, new_data}
use ruslock.Primitive.World.{World}
use ruslock.Primitive.Locks.{ReadWriteLock}
use ruslock.Aio.Sending.{Shared, locks_pending, registered, send_task}
use ruslock.Aio.Cleanup.{IsGuarded, send_task-IsGuarded}
use ruslock.Constants.{command_type_ping}
use ruslock.Error.{ok}
use ruslock.Protocol.Command.{Command, EncodedCommand, encode_command, ping_header}
use ruslock.Aio.Methods.{
  Primitives, Arguments, AllTwins, async_methods-AllTwins, AllUntouched, async_methods-AllUntouched,
}
use ruslock.Tests.Script.{Script, scripted, world_of, answer, id_of, key_of, a_lock}

abbrev two_readers : ReadWriteLock
two_readers = record {
  key = 65 ∷ [];
  timeout = 10;
  expired = 20;
  write_lock = a_lock;
  read_locks = a_lock ∷ record a_lock { lock_id = id_of 2 } ∷ [];
}

abbrev some_primitives : Primitives
some_primitives = record {
  lock = a_lock;
  event = record { lock = a_lock; default_set = false };
  group_event = record { lock = a_lock; client_id = 7; version_id = 3 };
  reentrant = record { lock = a_lock };
  semaphore = record { key = 65 ∷ []; count = 3; timeout = 10; expired = 20 };
  read_write = two_readers;
  priority = record { lock = a_lock; priority = 4 };
  max_concurrent = record { lock = a_lock };
  token_bucket = record { lock = a_lock };
  tree = record { lock = a_lock; parent_key = none };
  leaf = record {
    tree_lock = record { lock = a_lock; parent_key = some (key_of 6) };
    lock = a_lock;
  };
}

abbrev some_data : LockData
some_data = new_data 0 1 0 []

abbrev some_arguments : Arguments
some_arguments = record {
  flag = 2;
  timeout = 5;
  contents = some some_data;
  some_contents = some_data;
}

-- The leaf is refused, and the checks are released.
abbrev refusing : World Script
refusing = world_of (answer 5 ∷ answer 0 ∷ answer 8 ∷ answer 0 ∷ answer 0 ∷ [])

async_methods-AllTwins_example : AllTwins scripted some_arguments some_primitives refusing
async_methods-AllTwins_example =
    async_methods-AllTwins scripted some_arguments some_primitives refusing

async_methods-AllUntouched_example : AllUntouched scripted some_arguments some_primitives refusing
async_methods-AllUntouched_example =
    async_methods-AllUntouched scripted some_arguments some_primitives refusing

abbrev a_ping : Command
a_ping = Command.ping (record { request_id = id_of 1 })

abbrev ping_encoding : EncodedCommand
ping_encoding = record {
  request_id = id_of 1;
  command_type = command_type_ping;
  header = ping_header (record { request_id = id_of 1 });
  extra = none;
  timeout = 0;
  expects_response = true;
}

a_ping-encodes : encode_command a_ping ≡ ok ping_encoding
unfolding encode_command
a_ping-encodes = refl

-- Another command is pending.
abbrev some_shared : Shared
some_shared = record { closed = false; writer = some 1; pending = (id_of 2, 4) ∷ [] }

send_task-IsGuarded_example :
    (send_task a_ping 5 some_shared
      ≡ locks_pending none some_shared (λ s'. registered (id_of 1) 5 s'))
    × ((s' : Shared) → IsGuarded (id_of 1) (registered (id_of 1) 5 s'))
send_task-IsGuarded_example =
    send_task-IsGuarded a_ping 5 some_shared ping_encoding a_ping-encodes refl
