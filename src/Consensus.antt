-- ===== src/Consensus.antt =====
-- src/consensus/: the Tendermint engine and slashing.
pub mod Vote
pub mod VoteSet
pub mod State
pub mod Rounds
pub mod Engine
pub mod Slashing
