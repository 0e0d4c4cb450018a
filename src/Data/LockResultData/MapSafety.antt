-- ===== src/Data/LockResultData/MapSafety.antt =====
-- data/lock_result_data.rs: the map accessors return on every input, and with them all accessors.
use ruslock.Prelude.{ℕ, zero, suc, ◌+◌, ◌≤◌, ◌<◌, arith, List, [], ◌∷◌, Bool, true, false}
use ruslock.Prelude.{if◌then◌else◌, ◌==◌, Bool-cases, inl, inr, length, le→leb, lt→leb}
use ruslock.Prelude.{lt→ltb, le→ltb}
use native.Mathlib.Decide.{dec_le}
use ruslock.Error.{Result, ok, err, panic, out_of_fuel, ◌>>=◌, Returns, Returns-bind, SlockError}
use ruslock.Data.Raw.{LockResultData}
use ruslock.Data.LockResultData.{
  value_offset, as_bytes, as_i64, is_kv_value, as_list, map_value, from_utf8, as_string, strings,
  as_string_list, map_round, map_loop, as_map, string_values, as_string_map,
}
use ruslock.Data.LockResultData.Rounds.{u32_at, read_u32-inside, slice-inside}
use ruslock.Data.LockResultData.Safety.{
  value_offset-Returns, as_bytes-Returns, as_i64-Returns, has_value_flag-Returns, as_list-Returns,
}

abbrev Entries : Type 0
Entries = List (List ℕ × List ℕ)

-- The round returned, and if it went well it moved the index up.
abbrev Advances : ℕ → Result (ℕ × Entries) → Type 0
Advances i (ok (next, m)) = i + 4 ≤ next
Advances i (err e) = Unit
Advances i panic = ⊥
Advances i out_of_fuel = ⊥

map_value-Advances :
    (raw : List ℕ) (i : ℕ) (key : List ℕ) (m : Entries) → Advances i (map_value raw i key m)
unfolding map_value
map_value-Advances raw i key m = elim (dec_le (i + 4) (length raw)) [
  | no short ↦ rw (lt→ltb (length raw) (i + 4) (omega arith)) tt
  | yes inside ↦
      let len : ℕ = u32_at raw i in
      rw (le→ltb (length raw) (i + 4) inside, read_u32-inside raw i inside)
        (elim (Bool-cases (len == 0)) [
          | inl empty ↦ rw empty (omega arith)
          | inr some_bytes ↦ elim (dec_le (i + 4 + len) (length raw)) [
            | no long ↦ rw (some_bytes, lt→ltb (length raw) (i + 4 + len) (omega arith)) tt
            | yes fits ↦
                rw
                  (
                    some_bytes,
                    le→ltb (length raw) (i + 4 + len) fits,
                    slice-inside raw (i + 4) (i + 4 + len) (omega arith) fits,
                  )
                  (omega arith)
          ]
        ])
]

Advances-weaken : {i j : ℕ} (r : Result (ℕ × Entries)) → i ≤ j → Advances j r → Advances i r
Advances-weaken (ok (next, m)) h a = omega arith
Advances-weaken (err e) h a = tt
Advances-weaken panic h a = a
Advances-weaken out_of_fuel h a = a

module _ (is_utf8 : List ℕ → Bool) where
  Advances-from_utf8 :
      (i : ℕ) (bytes : List ℕ) (e : SlockError) (k : List ℕ → Result (ℕ × Entries))
      → ((key : List ℕ) → Advances i (k key))
      → Advances i (from_utf8 is_utf8 bytes e >>= k)
  unfolding from_utf8
  Advances-from_utf8 i bytes e k h = elim (Bool-cases (is_utf8 bytes)) [
    | inl valid ↦ rw valid (h bytes)
    | inr invalid ↦ rw invalid tt
  ]

  map_round-Advances :
      (raw : List ℕ) (i : ℕ) (m : Entries)
      → i + 4 ≤ length raw
      → Advances i (map_round is_utf8 raw i m)
  unfolding map_round
  map_round-Advances raw i m inside =
      let len : ℕ = u32_at raw i in
      rw (read_u32-inside raw i inside) (elim (Bool-cases (len == 0)) [
        | inl empty ↦ rw empty (omega arith)
        | inr some_bytes ↦ elim (dec_le (i + 4 + len) (length raw)) [
          | no long ↦ rw (some_bytes, lt→ltb (length raw) (i + 4 + len) (omega arith)) tt
          | yes fits ↦
              rw
                (
                  some_bytes,
                  le→ltb (length raw) (i + 4 + len) fits,
                  slice-inside raw (i + 4) (i + 4 + len) (omega arith) fits,
                )
                (Advances-from_utf8 i _ _ _ λ key.
                  Advances-weaken (map_value raw (i + 4 + len) key m) (omega arith)
                    (map_value-Advances raw (i + 4 + len) key m))
        ]
      ])

  map_loop-Returns :
      (fuel : ℕ) (raw : List ℕ) (i : ℕ) (m : Entries)
      → 1 ≤ fuel
      → length raw < fuel + i
      → Returns (map_loop is_utf8 fuel raw i m)
  unfolding map_loop
  map_loop-Returns zero raw i m p h = absurd (omega arith)
  map_loop-Returns (suc fuel) raw i m p h = elim (dec_le (i + 4) (length raw)) [
    | no short ↦ rw (lt→leb (i + 4) (length raw) (omega arith)) tt
    | yes inside ↦ rw (le→leb (i + 4) (length raw) inside) (
        go (map_round is_utf8 raw i m) (map_round-Advances raw i m inside)
          (λ next m' moved. map_loop-Returns fuel raw next m' (omega arith) (omega arith)))
  ]
    where
      go :
          (r : Result (ℕ × Entries))
          → Advances i r
          → ((next : ℕ) (m' : Entries) → i + 4 ≤ next → Returns (map_loop is_utf8 fuel raw next m'))
          → Returns (r >>= λ next. map_loop is_utf8 fuel raw next.0 next.1)
      go (ok (next, m')) a k = k next m' a
      go (err e) a k = tt
      go panic a k = a
      go out_of_fuel a k = a

  as_map-Returns : (d : LockResultData) → Returns (as_map is_utf8 d)
  unfolding as_map
  as_map-Returns d =
      Returns-bind (is_kv_value d) _ (unfold is_kv_value in has_value_flag-Returns _ d)
        λ kv _. go kv
    where
      go :
          (kv : Bool)
          → Returns (
              if kv
              then (value_offset d >>= λ at. map_loop is_utf8 (suc (length d.raw)) d.raw at [])
              else ok [])
      go false = tt
      go true =
          Returns-bind (value_offset d) _ (value_offset-Returns d)
            λ at _. map_loop-Returns (suc (length d.raw)) d.raw at [] (omega arith) (omega arith)

  from_utf8-Returns : (bytes : List ℕ) (e : SlockError) → Returns (from_utf8 is_utf8 bytes e)
  unfolding from_utf8
  from_utf8-Returns bytes e = ground arith

  as_string-Returns : (d : LockResultData) → Returns (as_string is_utf8 d)
  unfolding as_string from_utf8
  as_string-Returns d = ground arith

  strings-Returns : (vs : List (List ℕ)) → Returns (strings is_utf8 vs)
  unfolding strings
  strings-Returns [] = tt
  strings-Returns (v ∷ vs) =
      Returns-bind (from_utf8 is_utf8 v _) _ (from_utf8-Returns v _)
        λ s _. Returns-bind (strings is_utf8 vs) _ (strings-Returns vs) λ rest _. tt

  string_values-Returns : (m : Entries) → Returns (string_values is_utf8 m)
  unfolding string_values
  string_values-Returns [] = tt
  string_values-Returns ((k, v) ∷ m) =
      Returns-bind (from_utf8 is_utf8 v _) _ (from_utf8-Returns v _)
        λ s _. Returns-bind (string_values is_utf8 m) _ (string_values-Returns m) λ rest _. tt

  -- Whatever bytes the server sent, every accessor comes back with a value or an error: no index
  -- and no slice is out of range, and the loops over lists and maps end.
  pub accessors_return :
      (d : LockResultData)
      → Returns (as_bytes d)
        × Returns (as_i64 d)
        × Returns (as_list d)
        × Returns (as_map is_utf8 d)
        × Returns (as_string is_utf8 d)
        × Returns (as_string_list is_utf8 d)
        × Returns (as_string_map is_utf8 d)
  unfolding as_string_list as_string_map
  accessors_return d = (
    as_bytes-Returns d,
    as_i64-Returns d,
    as_list-Returns d,
    as_map-Returns d,
    as_string-Returns d,
    Returns-bind (as_list d) _ (as_list-Returns d) (λ vs _. strings-Returns vs),
    Returns-bind (as_map is_utf8 d) _ (as_map-Returns d) (λ m _. string_values-Returns m),
  )
