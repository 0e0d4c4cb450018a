-- ===== src/Lib.antt =====
-- The ruslock client library: locks and what is built from them, on a slock server.
--
-- The program's parts, from the wire up. A command (src/protocol/command.rs) is laid out in a
-- header of 64 bytes, with data blocks (src/data/lock_data.rs) behind it where its flag says so.
-- A connection (src/blocking/connection.rs) writes it, and reads replies: a header of 64 bytes
-- (src/protocol/codec.rs) and, where its flag says so, extra data, which the accessors of
-- src/data/lock_result_data.rs read. A database (src/blocking/database.rs) gives the times
-- of its primitives default flags, and sends their commands through a client.
-- The primitives (src/blocking/primitives.rs) are the Lock, which makes one command for each
-- call and an outcome from each reply, and the others, each of which keeps a Lock or makes one
-- for each call. A replica set (src/blocking/replset.rs) keeps a client for each node and sends to
-- the active one. An aio twin of the blocking modules runs on tokio.
--
-- Which file models which part, with the functions named as in the source unless stated:
--   Constants              src/protocol/constants.rs, in small letters
--   Key, Time              src/key.rs (Key16::new is new_key), src/time.rs
--   Error                  src/error.rs, and the outcome of a call: a value, an error, a panic,
--                          or the model's own lack of fuel
--   Protocol.Id            src/protocol/id.rs (Id16::new is new_id)
--   Protocol.Reply         src/protocol/result.rs
--   Protocol.Command       src/protocol/command.rs (Command::encode is encode_command; lock_header
--                          is its Lock branch)
--   Protocol.Codec         src/protocol/codec.rs
--   Data.LockData          src/data/lock_data.rs, with Data.Execute for the nested commands
--   Data.LockResultData    src/data/lock_result_data.rs
--   Options                src/options.rs
--   Connection             src/blocking/connection.rs: Stream is read_extra_data, State the fields
--                          that the threads share, Handshake what open makes of the answer,
--                          Threads open, close, send_command and the reader's loop
--   Primitive.World        what a primitive reaches through its Database: the client's
--                          send_command, the clock, the random generator, MD5 and the counter of
--                          the identifiers
--   Primitive.Lock         Lock of src/blocking/primitives.rs
--   Primitive.Event        Event of the same file
--   Primitive.Locks        ReentrantLock, Semaphore, ReadWriteLock, PriorityLock,
--                          MaxConcurrentFlow and TokenBucketFlow
--   Primitive.GroupEvent   GroupEvent
--   Primitive.Tree         TreeLock and TreeLeafLock
--   Primitive.Database     the factories of src/blocking/database.rs
--   Replset                ReplsetClient of src/blocking/replset.rs: opening, closing and
--                          ping, with the clients of the nodes as an interface; Replset.Send is
--                          send_command with its rounds over the nodes
--   Client                 ClientBackend of src/blocking/database.rs, and so what a database does
--                          on a client or on a replica set
--   Client.Single          src/blocking/client.rs; Client.Replicated the factories of
--                          src/blocking/replset.rs, Client.Api src/blocking/api.rs, Client.Handle
--                          src/blocking/handle.rs, Client.NodeList the lists of nodes
--   Aio.Future             what an async method is between its awaits, all of which end in that of
--                          the client's send_command
--   Aio.Lock, Event, GroupEvent, Locks, Tree
--                          the async methods of src/aio/primitives.rs
--   Aio.Sending            send_command and PendingCleanup of src/aio/connection.rs
--   Prelude                shared names, lists, bits, bytes and i64
--   Tests                  the theorems at concrete inputs, on a client with listed answers
-- The modules below a part's module hold its proofs and are named for what they prove.
--
-- How the state is modelled. A method of a primitive is a function on the primitive and the
-- World, which holds the client's state; the World's `sent` is no state of the program but the
-- list of the commands given to the client, which theorems speak of. The client is a parameter:
-- any function from a command and a state to an outcome and a state, so other threads and the
-- server may do anything between two calls. A byte, a u16 or a u32 is a natural number, with
-- `% 2 ^ w` where the source wraps or casts, and a field that a struct keeps as an array is a
-- list of bytes, whose length is a condition of the theorems that need it.
--
-- A connection's threads are a function from numbers to the places where they stand, its reader
-- threads one from streams to theirs. Each access to a mutex, an atomic or a channel is one event, and
-- a history is a list of events in any order; the network chooses what it does at each. The time that
-- passes is not counted there: a timeout may pass at any moment, and the limit of recv_timeout is a
-- function of its own (Handshake.receive_timeout).
--
-- An async method is a future that has returned or waits for the answer to a command. It says what is
-- left of the primitive if it is dropped there, and goes on with the answer and whatever world other
-- tasks have made meanwhile. The constructors and accessors of src/aio/primitives.rs are, line by line,
-- those of src/blocking/primitives.rs, whose definitions serve for both.
--
-- Fuel. The loops over lists and maps of result data get one round more than the data has
-- bytes, and every round reads at least the four bytes of a length. The loop of the replica set's
-- send_command takes its rounds as fuel; a theorem says how many are enough.
--
-- Parameters. MD5, the check of UTF-8, the clock, the random generator, the client, the clients of
-- a replica set's nodes and an end-of-file error are parameters. The theorem on keys assumes of MD5
-- that a digest has 16 bytes, and the one on the rounds of a replica set that time does not go back,
-- that a sleep takes at least its time, and that a node's client returns.
--
-- A client's connection is an interface to the client (Client.Link), to the replica set
-- (Replset.Nodes) and to the primitives (Primitive.World.Backend).
--
-- Not modelled: partial writes, and, of the aio modules, all but the primitives and the connection's
-- send_command. They are I/O and scheduling, or, for aio, the same logic on tokio. Where one thread
-- takes a second mutex while it holds one (send_command without a writer, and the reader that fails),
-- the two accesses are one event. So the histories do not show that such a pair of threads can block
-- each other for ever, nor an open between the drain and the loss of the writer. The process-wide
-- counter of the identifiers is part of the World, and what draws from it outside of the primitives of
-- that World, as open or another thread, is not counted: the ids of one World differ among themselves.
pub mod Aio
pub mod Prelude
pub mod Constants
pub mod Key
pub mod Time
pub mod Error
pub mod Options
pub mod Protocol
pub mod Data
pub mod Connection
pub mod Primitive
pub mod Replset
pub mod Client
pub mod Tests
