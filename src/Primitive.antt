-- ===== src/Primitive.antt =====
-- blocking/primitives.rs and blocking/database.rs: the lock and what is built from it.
pub mod World
pub mod Lock
pub mod Event
pub mod Locks
pub mod GroupEvent
pub mod Tree
pub mod Database
pub mod Requests
