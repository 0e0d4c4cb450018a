-- ===== src/Protocol/Codec/Fields.antt =====
-- protocol/codec.rs: a field of a header is found at its offset.
use ruslock.Prelude.{ℕ, zero, suc, ◌+◌, ◌-◌, ◌≡◌, refl, List, [], ◌∷◌, ◌++◌, arith}
use ruslock.Prelude.{length, get_or, take-append, drop-append}
use ruslock.Protocol.Codec.{at, slice}

-- `part` stands in `header` behind `before`.
pub slice-field :
    {header : List ℕ} (before part behind : List ℕ) (from to : ℕ)
    → header ≡ before ++ (part ++ behind)
    → length before ≡ from
    → from + length part ≡ to
    → slice header from to ≡ part
slice-field before part behind from to e size end =
    rw (e, drop-append before (part ++ behind) from size)
      (take-append part behind (to - from) (omega arith))

pub at-field :
    {header : List ℕ} (before : List ℕ) (b : ℕ) (behind : List ℕ) (i : ℕ)
    → header ≡ before ++ (b ∷ behind)
    → length before ≡ i
    → at header i ≡ b
at-field before b behind i e size = rw e (go before i size)
  where
    go : (pre : List ℕ) (k : ℕ) → length pre ≡ k → get_or (pre ++ (b ∷ behind)) k 0 ≡ b
    go [] zero h = refl
    go [] (suc k) h = absurd (omega arith)
    go (x ∷ xs) zero h = absurd (omega arith)
    go (x ∷ xs) (suc k) h = go xs k (omega arith)
