-- ===== src/Core/Clients.antt =====
-- crates/hsin-core/src/lib.rs: the settings of the client list and of client authentication.
pub mod Settings
pub mod Order
unfoldable pub use Settings.*
pub use Order.*
