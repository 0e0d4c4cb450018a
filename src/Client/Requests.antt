-- ===== src/Client/Requests.antt =====
-- blocking/client.rs, replset.rs, handle.rs and api.rs: what the first acquire of a primitive asks the
-- server for.
use ruslock.Prelude.{ℕ, List}
use ruslock.Protocol.Id.{Id16}
use ruslock.Primitive.World.{Backend}
use ruslock.Primitive.Requests.{Made}
use ruslock.Replset.{Nodes, Replset}
use ruslock.Client.{Link, ClientBackend}
use ruslock.Client.Handle.{ClientHandle, handle_api, select_handle}
use ruslock.Client

module _ {S : Type 0} (link : Link S) (nodes : Nodes S) (id : Id16) where
  -- Made by a handle.
  abbrev pub of_handle :
      Backend (ClientBackend S)
      → List ℕ
      → ℕ
      → ℕ
      → ℕ
      → ℕ
      → ClientHandle S
      → ℕ
      → Made (ClientBackend S)
  of_handle b key n priority t e h k = record {
    a_lock = Client.Handle.lock (handle_api link nodes id) b key t e h k;
    a_reentrant_lock = Client.Handle.reentrant_lock (handle_api link nodes id) b key t e h k;
    a_semaphore =
        (Client.Handle.semaphore (handle_api link nodes id) b key n t e h k, select_handle 0 h k);
    a_read_write_lock = Client.Handle.read_write_lock (handle_api link nodes id) b key t e h k;
    a_priority_lock = Client.Handle.priority_lock (handle_api link nodes id) b key priority t e h k;
    a_max_concurrent_flow =
        Client.Handle.max_concurrent_flow (handle_api link nodes id) b key n t e h k;
  }

  -- Made by a client.
  abbrev pub of_single :
      Backend (ClientBackend S) → List ℕ → ℕ → ℕ → ℕ → ℕ → S → ℕ → Made (ClientBackend S)
  of_single b key n priority t e c k = record {
    a_lock = Client.Single.lock b key t e c k;
    a_reentrant_lock = Client.Single.reentrant_lock b key t e c k;
    a_semaphore = (Client.Single.semaphore b key n t e c k, Client.Single.select_database 0 c k);
    a_read_write_lock = Client.Single.read_write_lock b key t e c k;
    a_priority_lock = Client.Single.priority_lock b key priority t e c k;
    a_max_concurrent_flow = Client.Single.max_concurrent_flow b key n t e c k;
  }

  -- Made by a replica set.
  abbrev pub of_replicated :
      Backend (ClientBackend S) → List ℕ → ℕ → ℕ → ℕ → ℕ → Replset S → ℕ → Made (ClientBackend S)
  of_replicated b key n priority t e p k = record {
    a_lock = Client.Replicated.lock b key t e p k;
    a_reentrant_lock = Client.Replicated.reentrant_lock b key t e p k;
    a_semaphore =
        (Client.Replicated.semaphore b key n t e p k, Client.Replicated.select_database 0 p k);
    a_read_write_lock = Client.Replicated.read_write_lock b key t e p k;
    a_priority_lock = Client.Replicated.priority_lock b key priority t e p k;
    a_max_concurrent_flow = Client.Replicated.max_concurrent_flow b key n t e p k;
  }
