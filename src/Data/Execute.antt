-- ===== src/Data/Execute.antt =====
-- data/lock_data.rs: the blocks that carry an encoded command. Of the encoded command the header
-- alone is kept.
use ruslock.Prelude.{ℕ}
use ruslock.Constants.{lock_data_stage_current, lock_data_command_type_execute}
use ruslock.Error.{Result, ok, ◌>>=◌}
use ruslock.Protocol.Command.{LockCommand, lock, encode_command}
use ruslock.Data.LockData.{LockData, new_data}

unfoldable pub execute_with_stage : ℕ → LockCommand → ℕ → Result LockData
unfolding encode_command new_data
execute_with_stage stage command flags = do
  encoded ← encode_command (lock command)
  ok (new_data stage lock_data_command_type_execute flags encoded.header)

unfoldable pub execute : LockCommand → Result LockData
unfolding execute_with_stage
execute command = execute_with_stage lock_data_stage_current command 0
