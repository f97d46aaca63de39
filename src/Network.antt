-- ===== src/Network.antt =====
-- src/network/: peers, gossip, the framing of messages, and the synchronisation of blocks.
pub mod Peer
pub mod Sync
pub mod P2p
pub mod Frames
pub mod Rpc
