-- ===== src/Data/LockResultData/Rounds.antt =====
-- data/lock_result_data.rs: one round of the loop of `as_list`, in the four ways that it can go.
use ruslock.Prelude.{ℕ, suc, ◌+◌, ◌-◌, ◌≤◌, ◌<◌, ◌≡◌, ◌≢◌, arith, List, [], ◌∷◌, ◌++◌}
use ruslock.Prelude.{Bool-cases, inl, inr, ltb, le→leb, lt→leb, lt→ltb, le→ltb}
use ruslock.Prelude.{◌==◌, false, length, take, drop, get_or, from_le_bytes}
use native.Mathlib.Decide.{dec_le, ℕ_discrete}
use ruslock.Error.{ok, err, lock_data, list_value_exceeds}
use ruslock.Data.LockResultData.{index, slice, read_u32, list_loop}

pub index-inside : (raw : List ℕ) (i : ℕ) → i < length raw → index raw i ≡ ok (get_or raw i 0)
unfolding index
index-inside raw i h = ground arith

pub slice-inside :
    (raw : List ℕ) (from to : ℕ)
    → from ≤ to
    → to ≤ length raw
    → slice raw from to ≡ ok (take (to - from) (drop from raw))
unfolding slice
slice-inside raw from to h k = ground arith

-- The little-endian u32 at `i`.
abbrev pub u32_at : List ℕ → ℕ → ℕ
u32_at raw i =
    from_le_bytes
      (get_or raw i 0 ∷ get_or raw (i + 1) 0 ∷ get_or raw (i + 2) 0 ∷ get_or raw (i + 3) 0 ∷ [])

pub read_u32-inside :
    (raw : List ℕ) (i : ℕ) → i + 4 ≤ length raw → read_u32 raw i ≡ ok (u32_at raw i)
unfolding read_u32
read_u32-inside raw i h = elim (Bool-cases (ltb (length raw) (i + 4))) [
  | inl short ↦ absurd (ground arith)
  | inr long ↦ rw (
    long,
    index-inside raw i (omega arith),
    index-inside raw (i + 1) (omega arith),
    index-inside raw (i + 2) (omega arith),
    index-inside raw (i + 3) (omega arith),
  )
]

pub data ListRound (raw : List ℕ) (i : ℕ) : Type 0 where
  list_stops : length raw < i + 4 → ListRound raw i
  list_skips : i + 4 ≤ length raw → u32_at raw i ≡ 0 → ListRound raw i
  list_fails :
      i + 4 ≤ length raw → u32_at raw i ≢ 0 → length raw < i + 4 + u32_at raw i → ListRound raw i
  list_takes :
      i + 4 ≤ length raw → u32_at raw i ≢ 0 → i + 4 + u32_at raw i ≤ length raw → ListRound raw i

pub list_round : (raw : List ℕ) (i : ℕ) → ListRound raw i
list_round raw i = elim (dec_le (i + 4) (length raw)) [
  | no short ↦ list_stops (omega arith)
  | yes inside ↦ elim (ℕ_discrete (u32_at raw i) 0) [
    | yes empty ↦ list_skips inside empty
    | no some_bytes ↦ elim (dec_le (i + 4 + u32_at raw i) (length raw)) [
      | yes fits ↦ list_takes inside some_bytes fits
      | no long ↦ list_fails inside some_bytes (omega arith)
    ]
  ]
]

module _ (fuel : ℕ) (raw : List ℕ) (i : ℕ) (values : List (List ℕ)) where
  pub list_loop-stop : length raw < i + 4 → list_loop (suc fuel) raw i values ≡ ok values
  unfolding list_loop
  list_loop-stop h = rw (lt→leb (i + 4) (length raw) h)

  module _ (inside : i + 4 ≤ length raw) where
    pub list_loop-skip :
        u32_at raw i ≡ 0 → list_loop (suc fuel) raw i values ≡ list_loop fuel raw (i + 4) values
    unfolding list_loop
    list_loop-skip e = rw (le→leb (i + 4) (length raw) inside, read_u32-inside raw i inside, e)

    module _ (some_bytes : u32_at raw i ≢ 0) where
      abbrev len : ℕ
      len = u32_at raw i

      nonzero : (len == 0) ≡ false
      nonzero = ground arith

      pub list_loop-fail :
          length raw < i + 4 + u32_at raw i
          → list_loop (suc fuel) raw i values ≡ err (lock_data list_value_exceeds)
      unfolding list_loop
      list_loop-fail long = rw (
        le→leb (i + 4) (length raw) inside,
        read_u32-inside raw i inside,
        nonzero,
        lt→ltb (length raw) (i + 4 + len) long,
      )

      pub list_loop-take :
          i + 4 + u32_at raw i ≤ length raw
          → list_loop (suc fuel) raw i values
            ≡ list_loop fuel raw
                (i + 4 + u32_at raw i)
                (values ++ (take (i + 4 + u32_at raw i - (i + 4)) (drop (i + 4) raw) ∷ []))
      unfolding list_loop
      list_loop-take fits = rw (
        le→leb (i + 4) (length raw) inside,
        read_u32-inside raw i inside,
        nonzero,
        le→ltb (length raw) (i + 4 + len) fits,
        slice-inside raw (i + 4) (i + 4 + len) (omega arith) fits,
      )
