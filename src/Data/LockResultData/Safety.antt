-- ===== src/Data/LockResultData/Safety.antt =====
-- data/lock_result_data.rs: on every input the accessors return; no index or slice is out of range,
-- and no loop runs on.
use ruslock.Prelude.{ℕ, zero, suc, ◌+◌, ◌≤◌, ◌<◌, arith, List, [], Bool}
use ruslock.Prelude.{true, false, if◌then◌else◌, length}
use ruslock.Error.{ok, ◌>>=◌, Returns, Returns-bind}
use ruslock.Data.Raw.{LockResultData}
use ruslock.Data.LockResultData.Rounds.{
  list_round, list_stops, list_skips, list_fails, list_takes, list_loop-stop, list_loop-skip,
  list_loop-fail, list_loop-take,
}
use ruslock.Data.LockResultData.{
  value_offset, as_bytes, as_i64, has_value_flag, is_array_value, read_u32, list_loop, as_list,
}

read_u32-Returns : (raw : List ℕ) (i : ℕ) → Returns (read_u32 raw i)
unfolding read_u32
read_u32-Returns raw i = ground arith

pub value_offset-Returns : (d : LockResultData) → Returns (value_offset d)
unfolding value_offset
value_offset-Returns d = ground arith

pub as_bytes-Returns : (d : LockResultData) → Returns (as_bytes d)
unfolding as_bytes
as_bytes-Returns d = ground arith

pub as_i64-Returns : (d : LockResultData) → Returns (as_i64 d)
unfolding as_i64
as_i64-Returns d = ground (arith, value_offset-Returns d)

pub has_value_flag-Returns : (mask : ℕ) (d : LockResultData) → Returns (has_value_flag mask d)
unfolding has_value_flag
has_value_flag-Returns mask d = ground arith

-- `fuel` rounds are enough from index `i` on: each moves the index up.
list_loop-Returns :
    (fuel : ℕ) (raw : List ℕ) (i : ℕ) (values : List (List ℕ))
    → 1 ≤ fuel
    → length raw < fuel + i
    → Returns (list_loop fuel raw i values)
list_loop-Returns zero raw i values p h = absurd (omega arith)
list_loop-Returns (suc fuel) raw i values p h = elim (list_round raw i) [
  | list_stops short ↦ rw (list_loop-stop fuel raw i values short) tt
  | list_skips inside empty ↦
      rw (list_loop-skip fuel raw i values inside empty)
        (list_loop-Returns fuel raw (i + 4) values (omega arith) (omega arith))
  | list_fails inside some_bytes long ↦
      rw (list_loop-fail fuel raw i values inside some_bytes long) tt
  | list_takes inside some_bytes fits ↦
      rw (list_loop-take fuel raw i values inside some_bytes fits)
        (list_loop-Returns fuel raw _ _ (omega arith) (omega arith))
]

pub as_list-Returns : (d : LockResultData) → Returns (as_list d)
unfolding as_list
as_list-Returns d =
    Returns-bind (is_array_value d) _ (unfold is_array_value in has_value_flag-Returns _ d)
      λ array _. go array
  where
    go :
        (array : Bool)
        → Returns (
            if array
            then (value_offset d >>= λ offset. list_loop (suc (length d.raw)) d.raw offset [])
            else ok [])
    go false = tt
    go true = Returns-bind (value_offset d) _ (value_offset-Returns d) λ offset _.
        list_loop-Returns (suc (length d.raw)) d.raw offset [] (omega arith) (omega arith)
