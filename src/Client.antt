-- ===== src/Client.antt =====
-- blocking/client.rs, handle.rs, api.rs and the clients of blocking/database.rs and replset.rs: which
-- client sends the commands of a database. The connection of a client is an interface.
pub mod NodeList
pub mod Api
pub mod Single
pub mod Replicated
pub mod Handle
pub mod Served
pub mod Requests
use ruslock.Prelude.{ℕ, List}
use ruslock.Error.{Result}
use ruslock.Options.{ClientOptions}
use ruslock.Protocol.Command.{Command}
use ruslock.Protocol.Reply.{CommandResult}
use ruslock.Primitive.World.{Backend}
use ruslock.Replset.{Nodes, Replset}
use ruslock.Replset.Send.{replset_send}

-- `Connection::open`, `Connection::close`, `Connection::send_command` and
-- `Connection::pending_len` of the connection of a client, whose state is an `S`.
pub record Link (S : Type 0) : Type 0 where
  pub connect : S → Result (Unit {0}) × S
  pub disconnect : S → S
  pub send : Command → S → Result CommandResult × S
  pub pending_len : S → ℕ

-- What the standard library and the crates give.
pub record Host (S : Type 0) : Type 0 where
  pub timestamp : S → ℕ × S
  pub next_u64 : S → ℕ × S
  pub md5 : List ℕ → List ℕ

-- `ClientBackend`, by the states of the clients.
pub data ClientBackend (S : Type 0) : Type 0 where
  single : S → ClientBackend S
  replset : Replset S → ClientBackend S

module _ {S : Type 0} where
  -- A step of the state of the clients.
  abbrev pub on_env : (S → ℕ × S) → ClientBackend S → ℕ × ClientBackend S
  on_env f (single s) = let (n, s') = f s in (n, single s')
  on_env f (replset p) = let (n, s') = f p.env in (n, replset (record p { env = s' }))

  -- `ClientBackend::send_command`, where a replica set makes at most `fuel` rounds over its nodes.
  unfoldable pub backend_send :
      Link S
      → Nodes S
      → ℕ
      → ClientOptions
      → Command
      → ClientBackend S
      → Result CommandResult × ClientBackend S
  unfolding replset_send
  backend_send link nodes fuel options command (single s) =
      let (r, s') = link.send command s in (r, single s')
  backend_send link nodes fuel options command (replset p) =
      let (r, p') = replset_send nodes fuel command options p in (r, replset p')

  -- What the primitives of a database reach for, on a client or on a replica set.
  unfoldable pub backend : Link S → Nodes S → Host S → ℕ → ClientOptions → Backend (ClientBackend S)
  unfolding backend_send
  backend link nodes host fuel options = record {
    send = backend_send link nodes fuel options;
    timestamp = on_env host.timestamp;
    next_u64 = on_env host.next_u64;
    md5 = host.md5;
  }
