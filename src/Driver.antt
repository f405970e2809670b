-- ===== src/Driver.antt =====
-- services/driver-service/internal/domain: the drivers and the assignments of deliveries to them.
pub mod Profile
pub mod Assignment
pub mod Review
pub mod Collection
pub mod Store
pub mod Env
pub mod Dispatch
pub mod Policy
pub mod Search
pub mod Consumer
pub mod Workers
pub mod Commands
pub mod Rating
pub mod Ledger
mod Examples
