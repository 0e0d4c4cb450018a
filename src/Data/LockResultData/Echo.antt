-- ===== src/Data/LockResultData/Echo.antt =====
-- data/lock_data.rs, blocking/connection.rs and data/lock_result_data.rs together: a block that a
-- server sends back is read as what was encoded.
use ruslock.Prelude.{ℕ, ◌+◌, ◌%◌, ◌^◌, ◌<◌, ◌≡◌, refl, ap, ◌∙◌, arith}
use ruslock.Prelude.{List, [], ◌∷◌, ◌++◌, Option, none, some, length}
use ruslock.Prelude.{length-append, bit_and, bit_and_ones, take-append, drop-append}
use ruslock.Prelude.{to_le_bytes, from_le_bytes, length-to_le_bytes, from-to_le_bytes, le→leb}
use ruslock.Prelude.Int.{ℤ, IsI64, i64_bits, bits_i64, i64_bits-lt, bits_i64-i64_bits}
use mathlib.Core.List.{append_assoc}
use ruslock.Constants.{lock_data_flag_contains_property}
use ruslock.Error.{IoError, Result, ok, ◌>>=◌}
use ruslock.Connection.Stream.{read_exact, read_extra_data}
use ruslock.Data.Raw.{LockResultData}
use ruslock.Data.LockData.{LockData, LockDataValue, block, bytes, type_byte, encode, incr}
use ruslock.Data.LockData.Frame.{type_byte_fields, frame_of}
use ruslock.Data.LockData.Wire.{wire, wire_value, IsEncodable, encode-wire}
use ruslock.Data.LockResultData.{
  stage, command_type, flags, value_offset, as_bytes, i64_loop, as_i64,
}

-- What the reader keeps of a frame: four zeros for the length, then the frame's other bytes.
abbrev pub kept : ℕ → ℕ → List ℕ → LockResultData
kept packed flag payload = record { raw = 0 ∷ 0 ∷ 0 ∷ 0 ∷ packed ∷ flag ∷ payload }

module _ (eof : IoError) where
  read_exact-append :
      (n : ℕ) (part rest : List ℕ)
      → length part ≡ n
      → read_exact eof n (part ++ rest) ≡ ok (part, rest)
  unfolding read_exact
  read_exact-append n part rest h = rw (
    le→leb n (length (part ++ rest)) (omega (arith, length-append part rest)),
    take-append part rest n h,
    drop-append part rest n h,
  )

  -- Reading the data behind a header takes exactly one frame off the stream.
  pub read_extra_data-frame :
      (s t f : ℕ) (payload rest : List ℕ)
      → length payload + 2 < 2 ^ 32
      → read_extra_data eof (frame_of s t f payload ++ rest)
        ≡ ok ((kept (type_byte s t) f payload).raw, rest)
  read_extra_data-frame s t f payload rest fits =
      let len : ℕ = length payload + 2 in
      let body : List ℕ = type_byte s t ∷ f ∷ payload in
      let first : read_exact eof 4 (frame_of s t f payload ++ rest)
          ≡ ok (to_le_bytes 4 len, body ++ rest) =
        rw (append_assoc (to_le_bytes 4 len) body rest)
          (read_exact-append 4 (to_le_bytes 4 len) (body ++ rest) (length-to_le_bytes 4 len)) in
      let second : read_exact eof (from_le_bytes (to_le_bytes 4 len)) (body ++ rest)
          ≡ ok (body, rest) =
        rw (from-to_le_bytes 4 len fits) (read_exact-append len body rest (omega arith)) in
      unfold read_extra_data in rw (first, second)

  -- The block that arrives when a server sends back what `d` encodes to, with `rest` behind it.
  pub echo : LockData → List ℕ → Result (LockResultData × List ℕ)
  echo d rest = do
    frame ← encode d
    (raw, rest') ← read_extra_data eof (frame ++ rest)
    ok (record { raw = raw }, rest')

  pub echo-kept :
      (s t f : ℕ) (v : LockDataValue) (rest : List ℕ)
      → IsEncodable (block s t f v)
      → echo (block s t f v) rest ≡ ok (kept (type_byte s t) f (wire_value v), rest)
  unfolding echo
  echo-kept s t f v rest good =
      rw ((encode-wire (block s t f v) (wire (block s t f v))).1 (good, refl), framed)
    where
      framed :
          read_extra_data eof (wire (block s t f v) ++ rest)
          ≡ ok ((kept (type_byte s t) f (wire_value v)).raw, rest)
      framed = unfold wire IsEncodable in read_extra_data-frame s t f (wire_value v) rest good.1

-- The bytes, unless there are none.
abbrev pub nonempty : List ℕ → Option (List ℕ)
nonempty [] = none
nonempty (b ∷ bs) = some (b ∷ bs)

-- What the accessors say of a block with stage `s`, type `t`, flags `f` and value bytes `v`.
pub record Reads (s t f : ℕ) (v : List ℕ) (d : LockResultData) : Type 0 where
  pub stage_bits : stage d ≡ some (s % 4)
  pub type_bits : command_type d ≡ some (t % 64)
  pub flag_byte : flags d ≡ some f
  pub value_bytes : as_bytes d ≡ ok (nonempty v)

stage-kept : (s t f : ℕ) (v : List ℕ) → stage (kept (type_byte s t) f v) ≡ some (s % 4)
unfolding stage
stage-kept s t f v = ground (arith, type_byte_fields s t)

command_type-kept :
    (s t f : ℕ) (v : List ℕ) → command_type (kept (type_byte s t) f v) ≡ some (t % 64)
unfolding command_type
command_type-kept s t f v = ground (arith, type_byte_fields s t, bit_and_ones 6 (type_byte s t))

flags-kept : (p f : ℕ) (v : List ℕ) → flags (kept p f v) ≡ some f
unfolding flags
flags-kept p f v = ground arith

as_bytes-kept :
    (p f : ℕ) (v : List ℕ)
    → bit_and f lock_data_flag_contains_property ≡ 0
    → as_bytes (kept p f v) ≡ ok (nonempty v)
unfolding as_bytes
as_bytes-kept p f [] h = ground arith
as_bytes-kept p f (b ∷ bs) h = ground arith

i64_loop-kept : (p n : ℕ) → i64_loop 8 (kept p 1 (to_le_bytes 8 n)).raw 6 ≡ to_le_bytes 8 n
unfolding i64_loop to_le_bytes
i64_loop-kept p n = refl

value_offset-kept : (p : ℕ) (v : List ℕ) → value_offset (kept p 1 v) ≡ ok 6
unfolding value_offset
value_offset-kept p v = ground arith

as_i64-offset :
    (d : LockResultData) (o : ℕ)
    → value_offset d ≡ ok o
    → as_i64 d ≡ ok (bits_i64 (from_le_bytes (i64_loop 8 d.raw o)))
unfolding as_i64
as_i64-offset d o e = rw (e, as_i64)

as_i64-kept : (p n : ℕ) → n < 2 ^ 64 → as_i64 (kept p 1 (to_le_bytes 8 n)) ≡ ok (bits_i64 n)
as_i64-kept p n h =
    as_i64-offset (kept p 1 (to_le_bytes 8 n)) 6 (value_offset-kept p (to_le_bytes 8 n))
    ∙ ap (λ bs. ok (bits_i64 (from_le_bytes bs))) (i64_loop-kept p n)
    ∙ ap (λ w. ok (bits_i64 w)) (from-to_le_bytes 8 n h)

module _ (eof : IoError) where
  -- A block that encodes, without the property flag, comes back with its stage modulo 4, its type
  -- modulo 64 (they share a byte), its flags and its value bytes; the bytes behind it stay in the
  -- stream.
  pub echo-Reads :
      (s t f : ℕ) (v : LockDataValue) (rest : List ℕ)
      → IsEncodable (block s t f v)
      → bit_and f lock_data_flag_contains_property ≡ 0
      → (d : LockResultData) × (echo eof (block s t f v) rest ≡ ok (d, rest))
        × Reads s t f (wire_value v) d
  echo-Reads s t f v rest good plain = (
    kept (type_byte s t) f (wire_value v),
    echo-kept eof s t f v rest good,
    record {
      stage_bits = stage-kept s t f (wire_value v);
      type_bits = command_type-kept s t f (wire_value v);
      flag_byte = flags-kept (type_byte s t) f (wire_value v);
      value_bytes = as_bytes-kept (type_byte s t) f (wire_value v) plain;
    },
  )

  -- An increment that is sent back is read as the signed number that it was made from.
  pub as_i64-echo-incr :
      (v : ℤ) (rest : List ℕ) → IsI64 v → (echo eof (incr v) rest >>= λ r. as_i64 r.0) ≡ ok v
  unfolding incr wire_value
  as_i64-echo-incr v rest h =
      rw (echo-kept eof 0 2 1 (bytes (to_le_bytes 8 (i64_bits v))) rest eight)
        (as_i64-kept (type_byte 0 2) (i64_bits v) (i64_bits-lt v h) ∙ ap ok (bits_i64-i64_bits v h))
    where
      eight : IsEncodable (block 0 2 1 (bytes (to_le_bytes 8 (i64_bits v))))
      eight = unfold IsEncodable wire in (tt, omega (arith, length-to_le_bytes 8 (i64_bits v)))
