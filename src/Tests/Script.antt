-- ===== src/Tests/Script.antt =====
-- A client whose answers are listed beforehand, and some values for the tests.
use ruslock.Prelude.{ℕ, List, [], ◌∷◌, replicate, none}
use ruslock.Key.{Key16}
use ruslock.Error.{Result, ok, err, command_timeout}
use ruslock.Protocol.Id.{Id16}
use ruslock.Protocol.Reply.{CommandResult, LockCommandResult, lock}
use ruslock.Primitive.World.{Backend, World}
use ruslock.Primitive.Lock.{Lock}

-- Without an answer left, a command times out.
abbrev pub Script : Type 0
Script = List (Result CommandResult)

abbrev pub scripted : Backend Script
scripted = record {
  send = λ command script. elim script [ [] ↦ (err command_timeout, []) | r ∷ rest ↦ (r, rest) ];
  timestamp = λ script. (1700000000000, script);
  next_u64 = λ script. (42, script);
  md5 = λ bytes. replicate 16 7;
}

abbrev pub world_of : Script → World Script
world_of script = record {
  env = script;
  id_counter = 0;
  db_id = 3;
  timeout_flags = 0;
  expired_flags = 0;
  sent = [];
}

abbrev pub id_of : ℕ → Id16
id_of n = record { bytes = n ∷ replicate 15 0 }

abbrev pub key_of : ℕ → Key16
key_of n = record { bytes = n ∷ replicate 15 0 }

abbrev pub reply_of : ℕ → Id16 → LockCommandResult
reply_of result lock_id = record {
  command_type = 1;
  request_id = id_of 9;
  result = result;
  flag = 0;
  db_id = 3;
  lock_id = lock_id;
  lock_key = key_of 5;
  l_count = 513;
  count = 7;
  lr_count = 1;
  r_count = 2;
  contents = none;
}

abbrev pub answer : ℕ → Result CommandResult
answer result = ok (lock (reply_of result (id_of 1)))

abbrev pub a_lock : Lock
a_lock = record {
  lock_key = key_of 5;
  lock_id = id_of 1;
  timeout = record { bits = 10 };
  expired = record { bits = 20 };
  count = 0;
  r_count = 0;
  current_data = none;
}
