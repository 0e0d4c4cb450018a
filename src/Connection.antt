-- ===== src/Connection.antt =====
-- The connection of blocking/connection.rs.
pub mod Stream
pub mod State
pub mod Handshake
pub mod Threads
pub mod Owners
pub mod Sound
pub mod Calls
pub mod Histories
pub mod Greeting
pub mod Others
pub mod Endings
