-- ===== src/Options.antt =====
-- options.rs: the options of a client. Durations are in milliseconds.
use ruslock.Prelude.{ℕ, Bool, true}

pub record ClientOptions : Type 0 where
  pub connect_timeout : ℕ
  pub reconnect_interval : ℕ
  pub command_timeout_grace : ℕ
  pub auto_reconnect : Bool
  pub tcp_nodelay : Bool
  pub tcp_keepalive : Bool

-- `ClientOptions::default`.
unfoldable pub default_options : ClientOptions
default_options = record {
  connect_timeout = 5000;
  reconnect_interval = 2000;
  command_timeout_grace = 120000;
  auto_reconnect = true;
  tcp_nodelay = true;
  tcp_keepalive = true;
}
