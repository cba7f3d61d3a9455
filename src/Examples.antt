-- ===== src/Examples.antt =====
-- The theorems at concrete inputs, and runs of the code.
pub mod Wire
pub mod Usage
pub mod Login
pub mod Daemon
pub mod Records
pub mod Gateway
pub mod Settings
