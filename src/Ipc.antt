-- ===== src/Ipc.antt =====
-- hsin-ipc and the RPC server of the daemon.
pub mod Protocol
pub mod Frame
pub mod Client
