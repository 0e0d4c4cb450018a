-- ===== src/Data.antt =====
-- data/: the data blocks that travel behind a header.
pub mod LockData
pub mod Raw
pub mod LockResultData
pub mod Execute
