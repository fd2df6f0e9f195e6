-- ===== src/Server.antt =====
-- src/server.rs: the methods of the JSON-RPC server.
pub mod Env
pub mod Hello
pub mod Submit
pub mod Recorded
pub mod Session
pub mod Interleave
