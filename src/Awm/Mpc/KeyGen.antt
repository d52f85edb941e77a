-- ===== src/Awm/Mpc/KeyGen.antt =====
-- src/advancedWalletManager/handlers: ecdsaMPCV2WalletGenerationInitialize.ts,
-- ecdsaMPCV2WalletGenerationRound.ts and ecdsaMPCV2WalletGenerationFinalize.ts. The key generation
-- library is called as a part of the SDK. A typed array and the object that JSON makes of it are one
-- value.
pub mod Messages
pub mod Initialize
pub mod Round
pub mod Finalize
pub mod NextState
pub mod Rounds
pub mod Stored
