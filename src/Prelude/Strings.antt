-- ===== src/Prelude/Strings.antt =====
-- Rust's `str` as its list of Unicode code points, with the operations that the program uses.
pub mod Defs
pub mod Affix
pub mod Trim
pub mod Decimal
unfoldable pub use Defs.*
unfoldable pub use Affix.*
unfoldable pub use Decimal.*
unfoldable pub use Trim.*
