-- ===== src/Wallet.antt =====
-- src/bin/wallet.rs: the wallet.
pub mod Data
pub mod Address
pub mod File
pub mod Words
pub mod Client
pub mod Scan
pub mod Send
pub mod Mnemonic
