-- ===== src/Protocol.antt =====
-- protocol/: identifiers, replies, commands and the codec of the 64-byte headers.
pub mod Id
pub mod Reply
pub mod Command
pub mod Codec
