-- ===== src/Usage.antt =====
-- crates/hsind/src/usage.rs: how the daemon learns what clients use, from their session files and
-- from the responses that pass through the local proxy.
pub mod Event
pub mod Tokens
pub mod Session
pub mod Lines
pub mod Quota
pub mod Store
pub mod Sync
pub mod Table
pub mod Observer
