-- ===== src/ApiCore.antt =====
-- services/api-core/src
pub mod World
pub mod Status
pub mod Ledger
pub mod Auth
pub mod Transactions
pub mod Reason
pub mod Calls
mod Tests
