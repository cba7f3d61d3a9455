-- ===== src/Proxy.antt =====
-- crates/hsind/src/proxy.rs: the local proxy that clients send their requests through.
pub mod Headers
pub mod Forward
pub mod Image
