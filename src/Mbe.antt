-- ===== src/Mbe.antt =====
-- src/masterBitgoExpress: the application that talks to BitGo, and to the wallet managers.
pub mod Bridge
pub mod Submit
pub mod Worker
pub mod MpcSign
pub mod Poll
pub mod Recovery
pub mod AwmClient
pub mod Wallets
pub mod SendMany
pub mod Unspents
pub mod Consolidate
pub mod Generate
pub mod Middleware
pub mod Callbacks
