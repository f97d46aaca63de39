-- ===== src/Node.antt =====
-- src/main.rs: the node.
pub mod RpcServer
pub mod Peers
pub mod Solo
pub mod Producer
