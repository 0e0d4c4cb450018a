-- ===== src/Data/LockData.antt =====
-- data/lock_data.rs: the data blocks of a command and their encoding.
pub mod Frame
pub mod Wire
use ruslock.Prelude.{ℕ, ◌+◌, ◌*◌, ◌%◌, ◌^◌, List, [], ◌∷◌, ◌++◌, leb, if◌then◌else◌}
use ruslock.Prelude.{bit_and, bit_or, length, to_le_bytes}
use ruslock.Prelude.Int.{ℤ, i64_bits}
use ruslock.Constants.{
  lock_data_stage_current, lock_data_command_type_set, lock_data_command_type_unset,
  lock_data_command_type_incr, lock_data_command_type_append, lock_data_command_type_shift,
  lock_data_command_type_pipeline, lock_data_command_type_push, lock_data_command_type_pop,
  lock_data_flag_value_type_number,
}
use ruslock.Error.{
  Result, ok, err, ◌>>=◌, lock_data, pipeline_is_empty, length_overflow, length_exceeds_u32,
}

mutual
  -- `stage`, `command_type`, `command_flag`, `value`.
  pub data LockData : Type 0 where
    block : ℕ → ℕ → ℕ → LockDataValue → LockData

  pub data LockDataValue : Type 0 where
    bytes : List ℕ → LockDataValue
    pipeline : Items → LockDataValue

  pub data Items : Type 0 where
    nil : Items
    cons : LockData → Items → Items

unfoldable pub stage_of : LockData → ℕ
stage_of (block s t f v) = s

unfoldable pub command_type_of : LockData → ℕ
command_type_of (block s t f v) = t

unfoldable pub command_flag_of : LockData → ℕ
command_flag_of (block s t f v) = f

-- `LockData::new`.
unfoldable pub new_data : ℕ → ℕ → ℕ → List ℕ → LockData
new_data stage command_type command_flag value = block stage command_type command_flag (bytes value)

unfoldable pub set_with_flags : List ℕ → ℕ → LockData
unfolding new_data
set_with_flags value flags = new_data lock_data_stage_current lock_data_command_type_set flags value

unfoldable pub set : List ℕ → LockData
unfolding new_data
set value = new_data lock_data_stage_current lock_data_command_type_set 0 value

unfoldable pub unset_with_flags : ℕ → LockData
unfolding new_data
unset_with_flags flags = new_data lock_data_stage_current lock_data_command_type_unset flags []

unfoldable pub unset : LockData
unfolding new_data
unset = new_data lock_data_stage_current lock_data_command_type_unset 0 []

unfoldable pub incr_with_flags : ℤ → ℕ → LockData
unfolding new_data i64_bits to_le_bytes
incr_with_flags value flags =
    new_data lock_data_stage_current lock_data_command_type_incr
      (bit_or flags lock_data_flag_value_type_number) (to_le_bytes 8 (i64_bits value))

unfoldable pub incr : ℤ → LockData
unfolding new_data i64_bits to_le_bytes
incr value =
    new_data lock_data_stage_current lock_data_command_type_incr lock_data_flag_value_type_number
      (to_le_bytes 8 (i64_bits value))

unfoldable pub append_with_flags : List ℕ → ℕ → LockData
unfolding new_data
append_with_flags value flags =
    new_data lock_data_stage_current lock_data_command_type_append flags value

unfoldable pub append : List ℕ → LockData
unfolding new_data
append value = new_data lock_data_stage_current lock_data_command_type_append 0 value

unfoldable pub shift_with_flags : ℕ → ℕ → LockData
unfolding new_data to_le_bytes
shift_with_flags count flags =
    new_data lock_data_stage_current lock_data_command_type_shift
      (bit_or flags lock_data_flag_value_type_number) (to_le_bytes 4 count)

unfoldable pub shift : ℕ → LockData
unfolding new_data to_le_bytes
shift count =
    new_data lock_data_stage_current lock_data_command_type_shift lock_data_flag_value_type_number
      (to_le_bytes 4 count)

unfoldable pub pipeline_with_flags : Items → ℕ → LockData
pipeline_with_flags items flags =
    block lock_data_stage_current lock_data_command_type_pipeline flags (pipeline items)

-- `LockData::pipeline`.
unfoldable pub pipeline_of : Items → LockData
pipeline_of items = block lock_data_stage_current lock_data_command_type_pipeline 0 (pipeline items)

unfoldable pub push_with_flags : List ℕ → ℕ → LockData
unfolding new_data
push_with_flags value flags =
    new_data lock_data_stage_current lock_data_command_type_push flags value

unfoldable pub push : List ℕ → LockData
unfolding new_data
push value = new_data lock_data_stage_current lock_data_command_type_push 0 value

unfoldable pub pop_with_flags : ℕ → ℕ → LockData
unfolding new_data to_le_bytes
pop_with_flags count flags =
    new_data lock_data_stage_current lock_data_command_type_pop
      (bit_or flags lock_data_flag_value_type_number) (to_le_bytes 4 count)

unfoldable pub pop : ℕ → LockData
unfolding new_data to_le_bytes
pop count =
    new_data lock_data_stage_current lock_data_command_type_pop lock_data_flag_value_type_number
      (to_le_bytes 4 count)

-- The byte that packs the stage and the command type; `stage << 6` is on a u8.
unfoldable pub type_byte : ℕ → ℕ → ℕ
type_byte stage command_type =
    bit_or (bit_and (stage * 2 ^ 6 % 256) 0xc0) (bit_and command_type 0x3f)

-- The second half of `LockData::encode`: the frame of a value. usize has 64 bits.
unfoldable pub encode_frame : ℕ → ℕ → ℕ → List ℕ → Result (List ℕ)
unfolding type_byte to_le_bytes
encode_frame stage command_type command_flag value =
    let len = length value + 2 in
    if leb (2 ^ 64) len
    then err (lock_data length_overflow)
    else if leb (2 ^ 32) len
    then err (lock_data length_exceeds_u32)
    else ok (to_le_bytes 4 len ++ (type_byte stage command_type ∷ command_flag ∷ value))

-- `LockData::encode`.
unfoldable mutual
  unfolding encode_frame

  pub encode : LockData → Result (List ℕ)
  encode (block stage command_type command_flag value) = do
    payload ← encode_value value
    encode_frame stage command_type command_flag payload

  pub encode_value : LockDataValue → Result (List ℕ)
  encode_value (bytes value) = ok value
  encode_value (pipeline items) = encode_pipeline items

  pub encode_pipeline : Items → Result (List ℕ)
  encode_pipeline nil = err (lock_data pipeline_is_empty)
  encode_pipeline (cons item items) = do first ← encode item; encode_items items first

  pub encode_items : Items → List ℕ → Result (List ℕ)
  encode_items nil value = ok value
  encode_items (cons item items) value = do next ← encode item; encode_items items (value ++ next)
