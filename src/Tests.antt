-- ===== src/Tests.antt =====
-- Tests: the theorems at concrete inputs, and runs of the handlers.
pub mod Data
pub mod Wallets
pub mod Master
pub mod Sending
pub mod Replies
pub mod Config
pub mod KeyGen
pub mod Mpc
pub mod Recovery
