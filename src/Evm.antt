-- ===== src/Evm.antt =====
-- src/evm/: ABI encoding, gas, private contract state, contracts and their execution, precompiles.
pub mod Abi
pub mod Gas
pub mod PrivateState
pub mod Contract
pub mod Executor
pub mod Precompiles
