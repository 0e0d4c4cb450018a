-- ===== src/Tests/Cluster.antt =====
-- A replica set of three nodes.
use ruslock.Prelude.{
  ℕ, ◌≡◌, ◌≢◌, refl, sym, ◌∙◌, ◌+◌, ◌<◌, List, ap, arith, get_or, [], ◌∷◌, none, some, true, ◌==◌,
  if◌then◌else◌,
}
use ruslock.Error.{Result, ok, err, out_of_fuel, client_closed, Returns}
use ruslock.Protocol.Reply.{ping}
use ruslock.Protocol.Id.{Id16}
use ruslock.Protocol.Command.{Command, EncodedCommand, encode_command, ping_header}
use ruslock.Replset.{Nodes, Replset, PendingCommand, origin, replset_open, client}
use ruslock.Replset.Choice.{try_nodes, Opened, replset_open-Opened}
use ruslock.Replset.Send.{replset_send}
use ruslock.Replset.Kept.{replset_send-queue}
use ruslock.Replset.Calls.{opening, closing, pinging, sending, perform_all, client-perform_all}
use ruslock.Replset.Timed.{IsTimed}
use ruslock.Replset.Deadline.{replset_send-Returns}
use ruslock.Options.{ClientOptions, default_options}
use ruslock.Constants.{command_type_ping}
use ruslock.Tests.Script.{id_of}

-- The first node is down, the third leads.
abbrev three_nodes : Nodes (Unit {0})
three_nodes = record {
  open_node = λ index s. (if index == 0 then some client_closed else none, s);
  init_type = λ index s. if index == 2 then 4 else 0;
  send_node = λ index c s. (ok (ping (record { request_id = id_of 1; result = 0 })), s);
  ping_node = λ index s. (ok true, s);
  close_node = λ index s. s;
  now = λ s. (0, s);
  sleep = λ d s. s;
}

abbrev a_replset : Replset (Unit {0})
a_replset = record { env = tt; clients = 3; active_index = none; pending_commands = [] }

replset_open-Opened_example :
    Opened three_nodes
      (try_nodes three_nodes 3 0 tt)
      a_replset
      (replset_open three_nodes a_replset).1
      (replset_open three_nodes a_replset).0
replset_open-Opened_example = replset_open-Opened three_nodes a_replset

abbrev with_queue : Replset (Unit {0}) → List PendingCommand → Replset (Unit {0})
with_queue p queue = record p { pending_commands = queue }

abbrev a_pending : ℕ → PendingCommand
a_pending n = record {
  request_id = id_of n;
  command = Command.ping (record { request_id = id_of n });
  retry_type = origin;
  deadline = 1000;
}

abbrev a_ping : Command
a_ping = Command.ping (record { request_id = id_of 1 })

-- The id of a command that could be encoded.
encoded_id : Result EncodedCommand → Id16
encoded_id (ok e) = e.request_id
encoded_id r = id_of 1

two_fresh : (e : EncodedCommand) → encode_command a_ping ≡ ok e → id_of 2 ≢ e.request_id
unfolding encode_command encoded_id
two_fresh e h same = differ (same ∙ sym (ap encoded_id h))
  where
    differ : id_of 2 ≢ id_of 1
    differ h = omega (arith, ap (λ (id : Id16). get_or id.bytes 0 0) h)

a_ping-returned :
    Returns
      (replset_send three_nodes 3 a_ping default_options
        (with_queue a_replset (a_pending 2 ∷ []))).0
unfolding replset_send
a_ping-returned = tt

replset_send-queue_example :
    (replset_send three_nodes 3 a_ping default_options
      (with_queue a_replset (a_pending 2 ∷ []))).1.pending_commands
    ≡ a_pending 2 ∷ []
replset_send-queue_example =
    replset_send-queue three_nodes 3 a_ping default_options
      (with_queue a_replset (a_pending 2 ∷ [])) (λ e h. (two_fresh e h, tt)) a_ping-returned

client-perform_all_example :
    (i : ℕ) × (client (
        perform_all three_nodes
          (opening ∷ sending 3 a_ping default_options ∷ pinging ∷ closing ∷ [])
          a_replset)
      ≡ some i)
    × (i < 3)
client-perform_all_example =
    client-perform_all three_nodes
      (opening ∷ sending 3 a_ping default_options ∷ pinging ∷ closing ∷ []) a_replset (omega arith)
      refl

-- Two nodes that open and lose what is sent to them; the state is the time in nanoseconds.
abbrev pub lost_nodes : Nodes ℕ
lost_nodes = record {
  open_node = λ index t. (none, t + 1000);
  init_type = λ index t. 0;
  send_node = λ index c t. (err client_closed, t + 10);
  ping_node = λ index t. (err client_closed, t + 10);
  close_node = λ index t. t + 1;
  now = λ t. (t, t + 1);
  sleep = λ d t. t + d;
}

abbrev pub lost_replset : Replset ℕ
lost_replset = record { env = 5; clients = 2; active_index = none; pending_commands = [] }

-- A grace of 100 milliseconds.
abbrev pub some_grace : ClientOptions
some_grace = record {
  connect_timeout = 5000;
  reconnect_interval = 2000;
  command_timeout_grace = 100;
  auto_reconnect = true;
  tcp_nodelay = true;
  tcp_keepalive = true;
}

abbrev pub same_time : ℕ → ℕ
same_time t = t

pub lost_nodes-IsTimed : IsTimed lost_nodes same_time
lost_nodes-IsTimed = record {
  opens = λ i t. omega arith;
  sends = λ i c t. omega arith;
  ends = λ i c t h. cc;
  closes = λ i t. omega arith;
  reads = λ t. omega arith;
  passes = λ t. omega arith;
  sleeps = λ d t. omega arith;
}

abbrev an_encoding : EncodedCommand
an_encoding = record {
  request_id = id_of 1;
  command_type = command_type_ping;
  header = ping_header (record { request_id = id_of 1 });
  extra = none;
  timeout = 0;
  expects_response = true;
}

a_ping-encodes : encode_command a_ping ≡ ok an_encoding
unfolding encode_command
a_ping-encodes = refl

replset_send-Returns_example :
    (replset_send lost_nodes 5 a_ping some_grace lost_replset).0 ≢ out_of_fuel
replset_send-Returns_example =
    replset_send-Returns lost_nodes lost_nodes-IsTimed 4 a_ping some_grace lost_replset an_encoding
      a_ping-encodes (omega arith)

-- It gives up when the deadline has passed.
gives_up : (replset_send lost_nodes 5 a_ping some_grace lost_replset).0 ≡ err client_closed
unfolding replset_send encode_command
gives_up = refl
