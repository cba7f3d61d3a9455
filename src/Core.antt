-- ===== src/Core.antt =====
-- hsin-core: the domain types and the business rules that the client and the daemon share.
pub mod Validation
pub mod Enums
pub mod Clients
pub mod Model
pub mod Network
pub mod Provider
pub mod Usage
pub mod Pricing
