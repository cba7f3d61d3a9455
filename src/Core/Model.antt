-- ===== src/Core/Model.antt =====
-- crates/hsin-core/src/lib.rs: what a provider says about models.
pub mod Mapping
pub mod Image
pub mod Tuning
unfoldable pub use Mapping.*
unfoldable pub use Image.*
unfoldable pub use Tuning.*
