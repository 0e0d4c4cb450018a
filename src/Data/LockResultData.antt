-- ===== src/Data/LockResultData.antt =====
-- data/lock_result_data.rs: reading the data block of a reply. An index or a slice out of range is
-- a panic, written out; `String::from_utf8` is the standard library's, so whether bytes are UTF-8
-- is a parameter, and a String is its bytes. usize has 64 bits.
pub mod Rounds
pub mod Safety
pub mod MapSafety
pub mod Echo
pub mod Lists
use ruslock.Prelude.{ℕ, zero, suc, ◌+◌, ◌-◌, ◌/◌, ◌^◌, List, [], ◌∷◌, ◌++◌, Option, none, some}
use ruslock.Prelude.{Bool, false, not, ◌&&◌, ltb, leb, ◌==◌, if◌then◌else◌, bit_and}
use ruslock.Prelude.{length, take, drop, get_or, from_le_bytes, bytes_eq}
use ruslock.Prelude.Int.{ℤ, pos, bits_i64}
use ruslock.Constants.{
  lock_data_flag_contains_property, lock_data_flag_value_type_array, lock_data_flag_value_type_kv,
  lock_data_command_type_unset,
}
use ruslock.Error.{
  SlockError, Result, ok, err, panic, out_of_fuel, ◌>>=◌, lock_data, shorter_than_header,
  property_length_missing, u32_exceeds_data, list_value_exceeds, map_key_exceeds,
  map_value_length_missing, map_value_exceeds, invalid_utf8_data, invalid_utf8_item,
  invalid_utf8_key, invalid_utf8_map_value,
}
use ruslock.Data.Raw.{LockResultData}

-- `raw[i]`.
unfoldable pub index : List ℕ → ℕ → Result ℕ
index raw i = if ltb i (length raw) then ok (get_or raw i 0) else panic

-- `raw[from..to]`.
unfoldable pub slice : List ℕ → ℕ → ℕ → Result (List ℕ)
slice raw from to =
    if leb from to && leb to (length raw) then ok (take (to - from) (drop from raw)) else panic

-- `raw.get(i)`.
unfoldable pub get : List ℕ → ℕ → Option ℕ
get raw i = if ltb i (length raw) then some (get_or raw i 0) else none

unfoldable pub stage : LockResultData → Option ℕ
unfolding get
stage d = elim (get d.raw 4) [ none ↦ none | some v ↦ some (v / 2 ^ 6) ]

unfoldable pub command_type : LockResultData → Option ℕ
unfolding get
command_type d = elim (get d.raw 4) [ none ↦ none | some v ↦ some (bit_and v 0x3f) ]

unfoldable pub flags : LockResultData → Option ℕ
unfolding get
flags d = get d.raw 5

unfoldable pub value_offset : LockResultData → Result ℕ
unfolding index from_le_bytes
value_offset d = if ltb (length d.raw) 6 then err (lock_data shorter_than_header) else do
  flag ← index d.raw 5
  if not (bit_and flag lock_data_flag_contains_property == 0)
      then if ltb (length d.raw) 8 then err (lock_data property_length_missing) else (do
        low ← index d.raw 6
        high ← index d.raw 7
        ok (8 + from_le_bytes (low ∷ high ∷ [])))
      else ok 6

-- `raw[offset..]`.
unfoldable pub slice_from : List ℕ → ℕ → Result (List ℕ)
slice_from raw from = if leb from (length raw) then ok (drop from raw) else panic

-- `.ok()?` turns an error into `None`; a panic stays one.
unfoldable pub as_bytes : LockResultData → Result (Option (List ℕ))
unfolding value_offset slice_from
as_bytes d = elim (value_offset d) [
  | ok offset ↦
      if leb (length d.raw) offset
      then ok none
      else slice_from d.raw offset >>= (λ bytes. ok (some bytes))
  | err e ↦ ok none
  | panic ↦ panic
  | out_of_fuel ↦ out_of_fuel
]

-- The `for` loop of `as_i64`: what is past the end stays 0.
unfoldable pub i64_loop : ℕ → List ℕ → ℕ → List ℕ
unfolding get
i64_loop zero raw at = []
i64_loop (suc n) raw at = elim (get raw at) [ none ↦ 0 | some v ↦ v ] ∷ i64_loop n raw (at + 1)

unfoldable pub as_i64 : LockResultData → Result ℤ
as_i64 d = elim (value_offset d) [
  | ok offset ↦ ok (bits_i64 (from_le_bytes (i64_loop 8 d.raw offset)))
  | err e ↦ ok (pos 0)
  | panic ↦ panic
  | out_of_fuel ↦ out_of_fuel
]

-- The test `len() >= 6 && raw[4] != UNSET && raw[5] & mask != 0`.
unfoldable pub has_value_flag : ℕ → LockResultData → Result Bool
unfolding index
has_value_flag mask d = if ltb (length d.raw) 6 then ok false else do
  packed ← index d.raw 4
  if packed == lock_data_command_type_unset
      then ok false
      else do flag ← index d.raw 5; ok (not (bit_and flag mask == 0))

unfoldable pub is_array_value : LockResultData → Result Bool
unfolding has_value_flag
is_array_value d = has_value_flag lock_data_flag_value_type_array d

unfoldable pub is_kv_value : LockResultData → Result Bool
unfolding has_value_flag
is_kv_value d = has_value_flag lock_data_flag_value_type_kv d

unfoldable pub read_u32 : List ℕ → ℕ → Result ℕ
unfolding index from_le_bytes
read_u32 raw i = if ltb (length raw) (i + 4) then err (lock_data u32_exceeds_data) else do
  a ← index raw i
  b ← index raw (i + 1)
  c ← index raw (i + 2)
  d ← index raw (i + 3)
  ok (from_le_bytes (a ∷ b ∷ c ∷ d ∷ []))

-- The `while` loop of `as_list`; each round moves the index up by 4 at least.
unfoldable pub list_loop : ℕ → List ℕ → ℕ → List (List ℕ) → Result (List (List ℕ))
list_loop zero raw i values = out_of_fuel
list_loop (suc fuel) raw i values =
    let body = read_u32 raw i >>= λ len.
    let skipped = list_loop fuel raw (i + 4) values in
    let taken = slice raw (i + 4) (i + 4 + len) >>= λ item.
    list_loop fuel raw (i + 4 + len) (values ++ (item ∷ [])) in
    if len == 0
    then skipped
    else if ltb (length raw) (i + 4 + len)
    then err (lock_data list_value_exceeds)
    else taken in
    if leb (i + 4) (length raw) then body else ok values

unfoldable pub as_list : LockResultData → Result (List (List ℕ))
as_list d = do
  array ← is_array_value d
  if array
      then (do offset ← value_offset d; list_loop (suc (length d.raw)) d.raw offset [])
      else ok []

-- A `HashMap<String, V>` in no particular order: `insert` replaces.
unfoldable pub insert {ℓ} : {V : Type ℓ} → List ℕ → V → List (List ℕ × V) → List (List ℕ × V)
insert k v [] = (k, v) ∷ []
insert k v ((j, w) ∷ m) = if bytes_eq j k then (k, v) ∷ m else (j, w) ∷ insert k v m

unfoldable pub lookup {ℓ} : {V : Type ℓ} → List ℕ → List (List ℕ × V) → Option V
lookup k [] = none
lookup k ((j, v) ∷ m) = if bytes_eq j k then some v else lookup k m

-- One entry of `as_map` behind its key.
unfoldable pub map_value :
    List ℕ → ℕ → List ℕ → List (List ℕ × List ℕ) → Result (ℕ × List (List ℕ × List ℕ))
map_value raw i key values =
    if ltb (length raw) (i + 4) then err (lock_data map_value_length_missing) else do
      len ← read_u32 raw i
      if len == 0
          then ok (i + 4, values)
          else if ltb (length raw) (i + 4 + len)
          then err (lock_data map_value_exceeds)
          else (do
            value ← slice raw (i + 4) (i + 4 + len)
            ok (i + 4 + len, insert key value values))

module _ (is_utf8 : List ℕ → Bool) where
  -- `String::from_utf8(bytes).map_err(..)`.
  unfoldable pub from_utf8 : List ℕ → SlockError → Result (List ℕ)
  from_utf8 bytes e = if is_utf8 bytes then ok bytes else err e

  unfoldable pub as_string : LockResultData → Result (List ℕ)
  unfolding value_offset slice_from from_utf8
  as_string d = do
    offset ← value_offset d
    if leb (length d.raw) offset
        then ok []
        else (do bytes ← slice_from d.raw offset; from_utf8 bytes (lock_data invalid_utf8_data))

  -- `.map(String::from_utf8).collect()` stops at the first error.
  unfoldable pub strings : List (List ℕ) → Result (List (List ℕ))
  strings [] = ok []
  strings (v ∷ vs) = do
    s ← from_utf8 v (lock_data invalid_utf8_item)
    rest ← strings vs
    ok (s ∷ rest)

  unfoldable pub as_string_list : LockResultData → Result (List (List ℕ))
  as_string_list d = do values ← as_list d; strings values

  -- One round of the `while` loop of `as_map`: the next index and the map.
  unfoldable pub map_round :
      List ℕ → ℕ → List (List ℕ × List ℕ) → Result (ℕ × List (List ℕ × List ℕ))
  map_round raw i values = do
    len ← read_u32 raw i
    if len == 0
        then ok (i + 4, values)
        else if ltb (length raw) (i + 4 + len)
        then err (lock_data map_key_exceeds)
        else (do
          bytes ← slice raw (i + 4) (i + 4 + len)
          key ← from_utf8 bytes (lock_data invalid_utf8_key)
          map_value raw (i + 4 + len) key values)

  unfoldable pub map_loop :
      ℕ → List ℕ → ℕ → List (List ℕ × List ℕ) → Result (List (List ℕ × List ℕ))
  map_loop zero raw i values = out_of_fuel
  map_loop (suc fuel) raw i values =
      let body = map_round raw i values >>= (λ next. map_loop fuel raw next.0 next.1) in
      if leb (i + 4) (length raw) then body else ok values

  unfoldable pub as_map : LockResultData → Result (List (List ℕ × List ℕ))
  as_map d = do
    kv ← is_kv_value d
    if kv
        then (do offset ← value_offset d; map_loop (suc (length d.raw)) d.raw offset [])
        else ok []

  unfoldable pub string_values : List (List ℕ × List ℕ) → Result (List (List ℕ × List ℕ))
  string_values [] = ok []
  string_values ((key, value) ∷ m) = do
    s ← from_utf8 value (lock_data invalid_utf8_map_value)
    rest ← string_values m
    ok ((key, s) ∷ rest)

  unfoldable pub as_string_map : LockResultData → Result (List (List ℕ × List ℕ))
  as_string_map d = do values ← as_map d; string_values values
