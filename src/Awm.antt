-- ===== src/Awm.antt =====
-- src/advancedWalletManager: the application that holds the keys.
pub mod KeyProvider
pub mod Utils
pub mod MultisigSign
pub mod IndependentKey
pub mod Recovery
pub mod Mpc
