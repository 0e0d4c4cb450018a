-- ===== src/Tests.antt =====
-- The theorems at concrete inputs.
mod Script
mod Wire
mod Blocks
mod Locks
mod Cluster
mod Connections
mod Futures
mod Clients
