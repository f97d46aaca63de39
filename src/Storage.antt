-- ===== src/Storage.antt =====
-- src/storage/: persistence of blocks and of the chain's state in RocksDB.
pub mod Families
pub mod Db
pub mod Laws
