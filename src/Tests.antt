-- ===== src/Tests.antt =====
-- Runs at concrete inputs.
mod Toy
mod Field
mod Disk
mod Consensus
mod Chain
mod Pool
mod Evm
mod Network
mod Crypto
mod Contracts
mod Wallet
mod Payments
mod Node
