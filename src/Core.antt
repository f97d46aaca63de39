-- ===== src/Core.antt =====
-- src/core/: transactions, blocks, the chain, the mempool and the fee market.
pub mod Types
pub mod Merkle
pub mod Transaction
pub mod Block
pub mod Params
pub mod Chain
pub mod Mempool
pub mod FeeMarket
pub mod PersistentState
