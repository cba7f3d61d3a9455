-- ===== src/Core/Enums.antt =====
-- crates/hsin-core/src/lib.rs: the enums of the domain and their text forms.
pub mod Interface
pub mod Types
pub mod Network
pub mod Parse
unfoldable pub use Interface.*
unfoldable pub use Types.*
unfoldable pub use Network.*
pub use Parse.*
