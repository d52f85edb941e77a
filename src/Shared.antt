-- ===== src/Shared.antt =====
-- src/shared: what both applications use.
pub mod Types
pub mod Errors
pub mod Response
pub mod HttpClient
pub mod CoinUtils
pub mod RecoveryUtils
pub mod CoinFactory
pub mod AppUtils
pub mod Middleware
pub mod TransactionUtils
