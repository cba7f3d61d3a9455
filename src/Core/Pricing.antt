-- ===== src/Core/Pricing.antt =====
-- Model prices of crates/hsin-core/src/lib.rs: how model names are compared, and which rule is best.
pub mod Name
pub mod Rule
unfoldable pub use Name.*
unfoldable pub use Rule.*
