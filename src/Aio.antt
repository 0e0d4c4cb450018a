-- ===== src/Aio.antt =====
-- aio/primitives.rs: the asynchronous primitives. Their awaits all end in that of a command that
-- the client sends, so a method is a future that is ready or waits for the client.
pub mod Future
pub mod Lock
pub mod Event
pub mod GroupEvent
pub mod Locks
pub mod Tree
pub mod Twins
pub mod EventTwins
pub mod LockTwins
pub mod TreeTwins
pub mod Dropped
pub mod TreeDropped
pub mod Methods
pub mod Sending
pub mod Cleanup
