-- ===== src/Awm/Mpc/EddsaKeyGen.antt =====
-- src/advancedWalletManager/handlers: eddsaMPCWalletGenerationInitialize.ts and
-- eddsaMPCWalletGenerationFinalize.ts, with what they use of utils/utils.ts. OpenPGP, buffers and the
-- key generation library are called as parts of the SDK.
pub mod Shares
pub mod Initialize
pub mod Finalize
pub mod Stored
