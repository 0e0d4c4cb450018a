-- ===== src/Data/Raw.antt =====
-- The struct of data/lock_result_data.rs, which replies carry.
use ruslock.Prelude.{ℕ, List}

pub record LockResultData : Type 0 where
  pub raw : List ℕ
