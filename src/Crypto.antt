-- ===== src/Crypto.antt =====
-- src/crypto/: Pedersen commitments, range proofs and ring signatures over an abstract prime-order group.
pub mod Ringct
pub mod RingSig
pub mod Group
pub mod Stealth
pub mod Amount
