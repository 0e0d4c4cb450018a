-- ===== src/Tests/Blocks.antt =====
-- Data blocks at concrete values.
use ruslock.Prelude.{ℕ, ◌≡◌, ◌↔◌, refl, arith, Bool, true, List, [], ◌∷◌, to_le_bytes}
use ruslock.Prelude.Int.{negsuc}
use ruslock.Error.{IoError, Returns, ok, ◌>>=◌}
use ruslock.Data.Raw.{LockResultData}
use ruslock.Data.LockData.{LockDataValue, block, bytes, pipeline, nil, cons, encode, incr}
use ruslock.Data.LockData.Wire.{wire, wire_value, IsEncodable, encode-wire, encode_prefix_free}
use ruslock.Data.LockResultData.{
  as_bytes, as_i64, as_list, as_map, as_string, as_string_list, as_string_map,
}
use ruslock.Data.LockResultData.MapSafety.{accessors_return}
use ruslock.Data.LockResultData.Echo.{kept, echo, Reads, echo-Reads, as_i64-echo-incr}
use ruslock.Data.LockResultData.Lists.{items_bytes, nonempty_items, as_list-items}

-- A pipeline of a set and a pop.
abbrev a_pipeline : LockDataValue
a_pipeline = pipeline (
    cons (block 0 0 0 (bytes (104 ∷ 105 ∷ [])))
      (cons (block 1 8 1 (bytes (2 ∷ 0 ∷ 0 ∷ 0 ∷ []))) nil))

a_pipeline-IsEncodable : IsEncodable (block 0 6 0 a_pipeline)
unfolding IsEncodable wire to_le_bytes
a_pipeline-IsEncodable = (((tt, omega arith), ((tt, omega arith), tt)), omega arith)

encode-wire_example : (encode (block 0 6 0 a_pipeline) ≡ ok (wire (block 0 6 0 a_pipeline))) ↔ (
    IsEncodable (block 0 6 0 a_pipeline)
    × (wire (block 0 6 0 a_pipeline) ≡ wire (block 0 6 0 a_pipeline)))
encode-wire_example = encode-wire (block 0 6 0 a_pipeline) (wire (block 0 6 0 a_pipeline))

abbrev behind : List ℕ
behind = 7 ∷ []

encode_prefix_free_example :
    (wire (block 0 6 0 a_pipeline) ≡ wire (block 0 6 0 a_pipeline)) × (behind ≡ behind)
encode_prefix_free_example =
    encode_prefix_free (block 0 6 0 a_pipeline) (block 0 6 0 a_pipeline)
      (wire (block 0 6 0 a_pipeline)) (wire (block 0 6 0 a_pipeline)) behind behind
      (encode-wire_example.1 (a_pipeline-IsEncodable, refl))
      (encode-wire_example.1 (a_pipeline-IsEncodable, refl)) refl

abbrev eof : IoError
eof = record { kind = 0; message = [] }

echo-Reads_example :
    (d : LockResultData) × (echo eof (block 0 6 0 a_pipeline) (7 ∷ []) ≡ ok (d, 7 ∷ []))
    × Reads 0 6 0 (wire_value a_pipeline) d
echo-Reads_example = echo-Reads eof 0 6 0 a_pipeline (7 ∷ []) a_pipeline-IsEncodable refl

as_i64-echo-incr_example : (echo eof (incr (negsuc 4)) (7 ∷ []) >>= λ r. as_i64 r.0) ≡ ok (negsuc 4)
as_i64-echo-incr_example = as_i64-echo-incr eof (negsuc 4) (7 ∷ []) (omega arith)

abbrev two_items : List (List ℕ)
two_items = (104 ∷ 105 ∷ []) ∷ [] ∷ (106 ∷ []) ∷ []

as_list-items_example : as_list (kept 0 2 (items_bytes two_items)) ≡ ok (nonempty_items two_items)
as_list-items_example =
    as_list-items 0 2 two_items (omega arith, (omega arith, (omega arith, tt))) (λ h. omega arith)
      (λ h. omega arith) refl

abbrev truncated : LockResultData
truncated = record { raw = 0 ∷ 0 ∷ 0 ∷ 0 ∷ 0 ∷ 2 ∷ 255 ∷ 255 ∷ 255 ∷ 255 ∷ [] }

abbrev every_text : List ℕ → Bool
every_text text = true

accessors_return_example :
    Returns (as_bytes truncated)
    × Returns (as_i64 truncated)
    × Returns (as_list truncated)
    × Returns (as_map every_text truncated)
    × Returns (as_string every_text truncated)
    × Returns (as_string_list every_text truncated)
    × Returns (as_string_map every_text truncated)
accessors_return_example = accessors_return every_text truncated
