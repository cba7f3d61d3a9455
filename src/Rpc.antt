-- ===== src/Rpc.antt =====
-- crates/hsind/src/rpc.rs: how the daemon serves a connection of the local protocol.
pub mod Methods
pub mod Serve
