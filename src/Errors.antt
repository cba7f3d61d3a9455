-- ===== src/Errors.antt =====
-- The errors of the daemon and their form on the wire: crates/hsind/src/error.rs, `ErrorCode` and
-- `AppError` of crates/hsin-core/src/lib.rs, and the conversion at the end of
-- crates/hsind/src/app.rs. Errors of libraries carry their text.
pub mod Types
pub mod Wire
unfoldable pub use Types.*
