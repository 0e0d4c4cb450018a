-- ===== src/Protocol/Reply.antt =====
-- protocol/result.rs: the decoded responses.
use ruslock.Prelude.{ℕ, Option}
use ruslock.Key.{Key16}
use ruslock.Protocol.Id.{Id16}
use ruslock.Data.Raw.{LockResultData}

pub record InitCommandResult : Type 0 where
  pub request_id : Id16
  pub result : ℕ
  pub init_type : ℕ

pub record PingCommandResult : Type 0 where
  pub request_id : Id16
  pub result : ℕ

pub record LockCommandResult : Type 0 where
  pub command_type : ℕ
  pub request_id : Id16
  pub result : ℕ
  pub flag : ℕ
  pub db_id : ℕ
  pub lock_id : Id16
  pub lock_key : Key16
  pub l_count : ℕ
  pub count : ℕ
  pub lr_count : ℕ
  pub r_count : ℕ
  pub contents : Option LockResultData

pub data CommandResult : Type 0 where
  init : InitCommandResult → CommandResult
  ping : PingCommandResult → CommandResult
  lock : LockCommandResult → CommandResult

unfoldable pub request_id : CommandResult → Id16
request_id (init r) = r.request_id
request_id (ping r) = r.request_id
request_id (lock r) = r.request_id

unfoldable pub result_code : CommandResult → ℕ
result_code (init r) = r.result
result_code (ping r) = r.result
result_code (lock r) = r.result
