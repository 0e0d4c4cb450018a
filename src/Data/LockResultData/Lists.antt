-- ===== src/Data/LockResultData/Lists.antt =====
-- data/lock_result_data.rs: `as_list` against the encoding of docs/Architecture.md 4, where each
-- item follows its length.
use ruslock.Prelude.{ℕ, zero, suc, ◌+◌, ◌-◌, ◌^◌, ◌≤◌, ◌<◌, ◌≡◌, ◌≢◌, refl, ap, ◌∙◌, arith}
use ruslock.Prelude.{List, [], ◌∷◌, ◌++◌, length, length-append, take, drop, get_or, All, bit_and}
use ruslock.Prelude.{take-append, drop-append, to_le_bytes, length-to_le_bytes}
use ruslock.Prelude.{from-to_le_bytes, true}
use mathlib.Core.List.{append_assoc, append-nil}
use ruslock.Constants.{
  lock_data_flag_contains_property, lock_data_flag_value_type_array, lock_data_command_type_unset,
}
use ruslock.Error.{ok}
use ruslock.Data.LockResultData.{list_loop, as_list, is_array_value, value_offset}
use ruslock.Data.LockResultData.Rounds.{u32_at, list_loop-stop, list_loop-skip, list_loop-take}
use ruslock.Data.LockResultData.Echo.{kept}

pub items_bytes : List (List ℕ) → List ℕ
items_bytes [] = []
items_bytes (item ∷ items) = (to_le_bytes 4 (length item) ++ item) ++ items_bytes items

-- The items that have a byte at least.
pub nonempty_items : List (List ℕ) → List (List ℕ)
nonempty_items [] = []
nonempty_items ([] ∷ items) = nonempty_items items
nonempty_items ((b ∷ bs) ∷ items) = (b ∷ bs) ∷ nonempty_items items

get_or-past :
    (before xs : List ℕ) (k j : ℕ)
    → j ≡ length before + k
    → get_or (before ++ xs) j 0 ≡ get_or xs k 0
get_or-past [] xs k j h = ap (λ i. get_or xs i 0) (omega arith)
get_or-past (b ∷ bs) xs k zero h = absurd (omega arith)
get_or-past (b ∷ bs) xs k (suc j) h = get_or-past bs xs k j (omega arith)

u32_at-past :
    (before rest : List ℕ) (n i : ℕ)
    → length before ≡ i
    → n < 2 ^ 32
    → u32_at (before ++ (to_le_bytes 4 n ++ rest)) i ≡ n
unfolding to_le_bytes
u32_at-past before rest n i h fits =
    let xs : List ℕ = to_le_bytes 4 n ++ rest in
    rw
      (
        get_or-past before xs 0 i (omega arith),
        get_or-past before xs 1 (i + 1) (omega arith),
        get_or-past before xs 2 (i + 2) (omega arith),
        get_or-past before xs 3 (i + 3) (omega arith),
      )
      (from-to_le_bytes 4 n fits)

abbrev Fits : List ℕ → Type 0
Fits item = length item < 2 ^ 32

list_loop-items :
    (items : List (List ℕ)) (fuel : ℕ) (raw before : List ℕ) (i : ℕ) (values : List (List ℕ))
    → raw ≡ before ++ items_bytes items
    → length before ≡ i
    → All Fits items
    → 1 ≤ fuel
    → length raw < fuel + i
    → list_loop fuel raw i values ≡ ok (values ++ nonempty_items items)
unfolding items_bytes nonempty_items
list_loop-items items zero raw before i values e h fits p q = absurd (omega arith)
list_loop-items [] (suc fuel) raw before i values e h fits p q =
    list_loop-stop fuel raw i values (omega (arith, ap length e, length-append before []))
    ∙ rw append-nil
list_loop-items ([] ∷ items) (suc fuel) raw before i values e h (fit, fits) p q =
    list_loop-skip fuel raw i values inside none_at
    ∙ list_loop-items items fuel raw (before ++ to_le_bytes 4 0) (i + 4) values shifted
        (omega (arith, length-append before (to_le_bytes 4 0), length-to_le_bytes 4 0)) fits
        (omega (arith, inside)) (omega arith)
  where
    shifted : raw ≡ (before ++ to_le_bytes 4 0) ++ items_bytes items
    shifted = e ∙ simp (append_assoc, append-nil)

    inside : i + 4 ≤ length raw
    inside = omega (
      arith,
      ap length shifted,
      length-append (before ++ to_le_bytes 4 0) (items_bytes items),
      length-append before (to_le_bytes 4 0),
      length-to_le_bytes 4 0,
    )

    none_at : u32_at raw i ≡ 0
    none_at =
        ap (λ r. u32_at r i) (shifted ∙ append_assoc before (to_le_bytes 4 0) (items_bytes items))
        ∙ u32_at-past before (items_bytes items) 0 i h (omega arith)
list_loop-items ((b ∷ bs) ∷ items) (suc fuel) raw before i values e h (fit, fits) p q =
    list_loop-take fuel raw i values inside some_bytes long_enough
    ∙ ap (λ t. list_loop fuel raw (i + 4 + u32_at raw i) (values ++ (t ∷ []))) cut
    ∙ list_loop-items items fuel raw ((before ++ l) ++ item) (i + 4 + u32_at raw i)
        (values ++ (item ∷ [])) shifted
        (omega (arith, length-append (before ++ l) item, size_l, read)) fits (omega (arith, inside))
        (omega arith)
    ∙ ap ok (append_assoc values (item ∷ []) (nonempty_items items))
  where
    item : List ℕ
    item = b ∷ bs

    l : List ℕ
    l = to_le_bytes 4 (length item)

    size_l : length (before ++ l) ≡ i + 4
    size_l = omega (arith, length-append before l, length-to_le_bytes 4 (length item))

    shifted : raw ≡ ((before ++ l) ++ item) ++ items_bytes items
    shifted = e ∙ simp append_assoc

    sizes : length raw ≡ i + 4 + length item + length (items_bytes items)
    sizes = omega (
      arith,
      ap length shifted,
      length-append ((before ++ l) ++ item) (items_bytes items),
      length-append (before ++ l) item,
      size_l,
    )

    inside : i + 4 ≤ length raw
    inside = omega (arith, sizes)

    read : u32_at raw i ≡ length item
    read =
        ap (λ r. u32_at r i) (shifted ∙ simp append_assoc)
        ∙ u32_at-past before (item ++ items_bytes items) (length item) i h fit

    some_bytes : u32_at raw i ≢ 0
    some_bytes = λ z. omega (arith, read, z)

    long_enough : i + 4 + u32_at raw i ≤ length raw
    long_enough = omega (arith, sizes, read)

    cut : take (i + 4 + u32_at raw i - (i + 4)) (drop (i + 4) raw) ≡ item
    cut =
        ap (λ r. take (i + 4 + u32_at raw i - (i + 4)) (drop (i + 4) r))
          (shifted ∙ append_assoc (before ++ l) item (items_bytes items))
        ∙ ap (take (i + 4 + u32_at raw i - (i + 4)))
            (drop-append (before ++ l) (item ++ items_bytes items) (i + 4) size_l)
        ∙ take-append item (items_bytes items) _ (omega (arith, read))

is_array-kept :
    (packed f : ℕ) (v : List ℕ)
    → packed ≢ lock_data_command_type_unset
    → bit_and f lock_data_flag_value_type_array ≢ 0
    → is_array_value (kept packed f v) ≡ ok true
unfolding is_array_value
is_array-kept packed f v h k = ground arith

offset-kept :
    (packed f : ℕ) (v : List ℕ)
    → bit_and f lock_data_flag_contains_property ≡ 0
    → value_offset (kept packed f v) ≡ ok 6
unfolding value_offset
offset-kept packed f v h = ground arith

-- In a block with the array flag and without the property flag, whose packed byte is not that of an
-- unset in the current stage, `as_list` finds the items that were encoded, those without a byte
-- left out.
pub as_list-items :
    (packed f : ℕ) (items : List (List ℕ))
    → All Fits items
    → packed ≢ lock_data_command_type_unset
    → bit_and f lock_data_flag_value_type_array ≢ 0
    → bit_and f lock_data_flag_contains_property ≡ 0
    → as_list (kept packed f (items_bytes items)) ≡ ok (nonempty_items items)
unfolding as_list
as_list-items packed f items fits set array plain =
    let v : List ℕ = items_bytes items in
    rw (is_array-kept packed f v set array, offset-kept packed f v plain)
      (list_loop-items items _ (kept packed f v).raw (0 ∷ 0 ∷ 0 ∷ 0 ∷ packed ∷ f ∷ []) 6 [] refl
        refl fits (omega arith) (omega arith))
