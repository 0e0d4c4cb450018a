-- ===== src/Tests/Clients.antt =====
-- A client, a replica set, and a list of two nodes.
use ruslock.Prelude.{ℕ, List, ◌≡◌, ◌≢◌, refl, arith, [], ◌∷◌, ◌+◌, ◌*◌, ◌≤◌, replicate}
use ruslock.Error.{ok, err, out_of_fuel, client_closed}
use ruslock.Primitive.Lock.{acquire}
use ruslock.Time.{value}
use ruslock.Primitive.World.{Backend}
use ruslock.Client.{Link, Host, ClientBackend, backend}
use ruslock.Client.Replicated.{select_database}
use ruslock.Client.Served.{acquire-Returns}
use ruslock.Client.NodeList.{
  Text, into_nodes, join_nodes, IsNode, into_nodes-join_nodes, trim, trim_start, trim_end, is_empty,
  is_whitespace,
}
use ruslock.Tests.Cluster.{lost_nodes, lost_replset, some_grace, lost_nodes-IsTimed}
use ruslock.Tests.Script.{a_lock}

abbrev a_link : Link ℕ
a_link = record {
  connect = λ t. (ok tt, t + 1);
  disconnect = λ t. t;
  send = λ command t. (err client_closed, t + 1);
  pending_len = λ t. 0;
}

abbrev a_host : Host ℕ
a_host = record {
  timestamp = λ t. (1700000000000, t);
  next_u64 = λ t. (42, t);
  md5 = λ bytes. replicate 16 7;
}

-- The timeout of the lock is 10 seconds, and the grace 100 milliseconds.
acquire-Returns_example :
    (acquire
      (backend a_link lost_nodes a_host 405 some_grace)
      (a_lock, select_database 3 lost_replset 17)).0
    ≢ out_of_fuel
acquire-Returns_example =
    acquire-Returns a_link lost_nodes a_host lost_nodes-IsTimed 404 some_grace a_lock lost_replset 3
      17 ten_seconds
  where
    ten_seconds : value a_lock.timeout * 1000 + 100 ≤ 404 * 25
    ten_seconds = unfold value in omega arith

abbrev a_backend : Backend (ClientBackend ℕ)
a_backend = backend a_link lost_nodes a_host 3 some_grace

abbrev a_key : List ℕ
a_key = 65 ∷ []

-- "a:1" and "b c".
abbrev first_node : Text
first_node = 97 ∷ 58 ∷ 49 ∷ []

abbrev second_node : Text
second_node = 98 ∷ 32 ∷ 99 ∷ []

first_node-IsNode : IsNode first_node
unfolding trim trim_start trim_end is_empty is_whitespace
first_node-IsNode = record { plain = (refl, (refl, (refl, tt))); trimmed = refl; filled = refl }

second_node-IsNode : IsNode second_node
unfolding trim trim_start trim_end is_empty is_whitespace
second_node-IsNode = record { plain = (refl, (refl, (refl, tt))); trimmed = refl; filled = refl }

into_nodes-join_nodes_example :
    into_nodes (97 ∷ 58 ∷ 49 ∷ 44 ∷ 98 ∷ 32 ∷ 99 ∷ []) ≡ first_node ∷ second_node ∷ []
unfolding join_nodes
into_nodes-join_nodes_example =
    into_nodes-join_nodes (first_node ∷ second_node ∷ [])
      (first_node-IsNode, (second_node-IsNode, tt))

-- Whitespace at the ends of the nodes, and empty nodes, are left out.
spaces : into_nodes (32 ∷ 97 ∷ 44 ∷ 9 ∷ 44 ∷ 98 ∷ 32 ∷ []) ≡ (97 ∷ []) ∷ (98 ∷ []) ∷ []
unfolding into_nodes trim_start trim_end is_whitespace
spaces = refl
