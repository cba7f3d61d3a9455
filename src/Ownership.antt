-- ===== src/Ownership.antt =====
-- crates/hsind/src/ownership.rs: the shared records that say which daemon manages a client's
-- configuration.
pub mod Record
pub mod Document
pub mod Status
