-- ===== src/Data/LockData/Wire.antt =====
-- data/lock_data.rs: the encoder against a specification without errors, nested pipelines included.
use ruslock.Prelude.{ℕ, ◌+◌, ◌^◌, ◌<◌, ◌≡◌, ◌≤◌, refl, sym, ap, ◌∙◌, arith, List, [], ◌++◌, ◌↔◌}
use ruslock.Prelude.{
  length, length-append, take, drop, take-append, drop-append, take-within, from_le_bytes,
  to_le_bytes,
}
use ruslock.Prelude.{length-to_le_bytes, from-to_le_bytes}
use mathlib.Core.List.{append_assoc, append-nil}
use mathlib.Core.Path.{ap₂}
use ruslock.Error.{ok, Returns, Returns-bind, bind-eq-ok}
use ruslock.Data.LockData.{
  LockData, LockDataValue, Items, block, bytes, pipeline, nil, cons, encode_frame, encode,
  encode_value, encode_items,
}
use ruslock.Data.LockData.Frame.{
  frame_of, encode_frame_fits, encode_frame-eq-ok, encode_frame-Returns,
}

-- What a block looks like on the wire: frames, and for a pipeline its items' frames in a row.
unfoldable mutual
  pub wire : LockData → List ℕ
  wire (block s t f v) = frame_of s t f (wire_value v)

  pub wire_value : LockDataValue → List ℕ
  wire_value (bytes v) = v
  wire_value (pipeline items) = wire_items items

  pub wire_items : Items → List ℕ
  wire_items nil = []
  wire_items (cons d ds) = wire d ++ wire_items ds

-- No pipeline in the block is empty, and every length prefix fits a u32.
unfoldable mutual
  pub IsEncodable : LockData → Type 0
  IsEncodable (block s t f v) = AreEncodable v × (length (wire_value v) + 2 < 2 ^ 32)

  pub AreEncodable : LockDataValue → Type 0
  AreEncodable (bytes v) = Unit {0}
  AreEncodable (pipeline nil) = ⊥
  AreEncodable (pipeline (cons d ds)) = IsEncodable d × AllEncodable ds

  pub AllEncodable : Items → Type 0
  AllEncodable nil = Unit {0}
  AllEncodable (cons d ds) = IsEncodable d × AllEncodable ds

mutual
  unfolding encode encode_frame wire IsEncodable

  encode_ok : (d : LockData) → IsEncodable d → encode d ≡ ok (wire d)
  encode_ok (block s t f v) (inner, fits) =
      rw (encode_value_ok v inner) (encode_frame_fits s t f (wire_value v) fits)

  encode_value_ok : (v : LockDataValue) → AreEncodable v → encode_value v ≡ ok (wire_value v)
  encode_value_ok (bytes v) h = refl
  encode_value_ok (pipeline nil) h = absurd h
  encode_value_ok (pipeline (cons d ds)) (hd, hds) =
      rw (encode_ok d hd) (encode_items_ok ds hds (wire d))

  encode_items_ok :
      (ds : Items)
      → AllEncodable ds
      → (value : List ℕ) → encode_items ds value ≡ ok (value ++ wire_items ds)
  encode_items_ok nil h value = rw append-nil
  encode_items_ok (cons d ds) (hd, hds) value =
      rw (encode_ok d hd) (encode_items_ok ds hds (value ++ wire d) ∙ simp append_assoc)

mutual
  unfolding encode wire IsEncodable

  encode_inv : (d : LockData) (b : List ℕ) → encode d ≡ ok b → IsEncodable d × (b ≡ wire d)
  encode_inv (block s t f v) b h =
      let (payload, e, framed) = bind-eq-ok (encode_value v) (encode_frame s t f) h in
      let (inner, same) = encode_value_inv v payload e in
      let (fits, shape) = encode_frame-eq-ok s t f payload b framed in
      ((inner, omega (arith, ap length same)), shape ∙ ap (frame_of s t f) same)

  encode_value_inv :
      (v : LockDataValue) (b : List ℕ) → encode_value v ≡ ok b → AreEncodable v × (b ≡ wire_value v)
  encode_value_inv (bytes v) b h = (tt, ground arith)
  encode_value_inv (pipeline nil) b h = cc
  encode_value_inv (pipeline (cons d ds)) b h =
      let (first, e, rest) = bind-eq-ok (encode d) (encode_items ds) h in
      let (hd, same) = encode_inv d first e in
      let (hds, all) = encode_items_inv ds first b rest in
      ((hd, hds), all ∙ ap (λ t. t ++ wire_items ds) same)

  encode_items_inv :
      (ds : Items) (value b : List ℕ)
      → encode_items ds value ≡ ok b
      → AllEncodable ds × (b ≡ value ++ wire_items ds)
  encode_items_inv nil value b h = (tt, rw append-nil (ground arith))
  encode_items_inv (cons d ds) value b h =
      let (next, e, rest) = bind-eq-ok (encode d) (λ next. encode_items ds (value ++ next)) h in
      let (hd, same) = encode_inv d next e in
      let (hds, all) = encode_items_inv ds (value ++ next) b rest in
      ((hd, hds), all ∙ rw same (append_assoc value (wire d) (wire_items ds)))

-- Encoding succeeds exactly on the blocks with no empty pipeline inside and with lengths that fit
-- their prefixes, and then gives the frames of the specification.
pub encode-wire : (d : LockData) (b : List ℕ) → (encode d ≡ ok b) ↔ (IsEncodable d × (b ≡ wire d))
encode-wire d b = (encode_inv d b, λ h. encode_ok d h.0 ∙ ap ok (sym h.1))

mutual
  unfolding encode encode_frame

  encode-Returns : (d : LockData) → Returns (encode d)
  encode-Returns (block s t f v) =
      Returns-bind (encode_value v) (encode_frame s t f) (encode_value-Returns v)
        (λ payload e. encode_frame-Returns s t f payload)

  encode_value-Returns : (v : LockDataValue) → Returns (encode_value v)
  encode_value-Returns (bytes v) = tt
  encode_value-Returns (pipeline nil) = tt
  encode_value-Returns (pipeline (cons d ds)) =
      Returns-bind (encode d) (encode_items ds) (encode-Returns d)
        (λ first e. encode_items-Returns ds first)

  encode_items-Returns : (ds : Items) (value : List ℕ) → Returns (encode_items ds value)
  encode_items-Returns nil value = tt
  encode_items-Returns (cons d ds) value =
      Returns-bind (encode d) (λ next. encode_items ds (value ++ next)) (encode-Returns d)
        (λ next e. encode_items-Returns ds (value ++ next))

-- The length prefix of a frame says where it ends.
pub wire_prefix :
    (d : LockData) → IsEncodable d → from_le_bytes (take 4 (wire d)) + 4 ≡ length (wire d)
unfolding wire IsEncodable
wire_prefix (block s t f v) (inner, fits) =
    let len : ℕ = length (wire_value v) + 2 in
    let prefix : take 4 (frame_of s t f (wire_value v)) ≡ to_le_bytes 4 len =
      take-append (to_le_bytes 4 len) _ 4 (length-to_le_bytes 4 len) in
    rw (prefix, from-to_le_bytes 4 len fits, length-append, length-to_le_bytes) (omega arith)

take-length : (xs ys : List ℕ) → take (length xs) (xs ++ ys) ≡ xs
take-length xs ys = take-append xs ys (length xs) refl

drop-length : (xs ys : List ℕ) → drop (length xs) (xs ++ ys) ≡ ys
drop-length xs ys = drop-append xs ys (length xs) refl

-- Encoded blocks that follow one another can be told apart: if two streams that start with an
-- encoded block are equal, the blocks' encodings are equal and so are the rests.
pub encode_prefix_free :
    (d d' : LockData) (b b' rest rest' : List ℕ)
    → encode d ≡ ok b
    → encode d' ≡ ok b'
    → b ++ rest ≡ b' ++ rest'
    → (b ≡ b') × (rest ≡ rest')
encode_prefix_free d d' b b' rest rest' h h' e = (
  sym (take-length b rest) ∙ ap₂ take size e ∙ take-length b' rest',
  sym (drop-length b rest) ∙ ap₂ drop size e ∙ drop-length b' rest',
)
  where
    sized : (d : LockData) (b : List ℕ) → encode d ≡ ok b → from_le_bytes (take 4 b) + 4 ≡ length b
    sized d b h = let (good, same) = encode_inv d b h in rw same (wire_prefix d good)

    long : (d : LockData) (b : List ℕ) → encode d ≡ ok b → 4 ≤ length b
    long d b h = omega (arith, sized d b h)

    front : (b rest : List ℕ) → 4 ≤ length b → take 4 (b ++ rest) ≡ take 4 b
    front b rest h = take-within b rest 4 h

    size : length b ≡ length b'
    size = omega (
      arith,
      sized d b h,
      sized d' b' h',
      ap from_le_bytes
          (sym (front b rest (long d b h)) ∙ ap (take 4) e ∙ front b' rest' (long d' b' h')),
    )
