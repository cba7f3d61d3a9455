-- ===== src/Core/Network.antt =====
-- crates/hsin-core/src/lib.rs: the outbound proxy of the daemon and of a provider, and URLs.
pub mod Parsers
pub mod Manual
pub mod Convert
unfoldable pub use Parsers.*
unfoldable pub use Manual.*
unfoldable pub use Convert.*
