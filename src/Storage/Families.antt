-- ===== src/Storage/Families.antt =====
-- The column families of src/storage/db.rs.
pub data ColumnFamily : Type 0 where
  cf_blocks_by_hash cf_blocks_by_height cf_key_images cf_chain_state cf_validators : ColumnFamily
