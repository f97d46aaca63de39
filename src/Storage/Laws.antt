-- ===== src/Storage/Laws.antt =====
-- A working database behind src/storage/db.rs, and what is read back after the writes of a block and
-- of the chain's state.
use cipher_x.Prelude.{
  ℕ, ◌+◌, ◌^◌, ◌<◌, ◌≡◌, ◌≢◌, refl, sym, ap, ◌∙◌, ite, Bool, true, false, ◌||◌, Option, none, some,
  List, [], ◌∷◌, Bytes, Bytes-discrete, length, take, take_all, ltb, ◌==◌, ◌&&◌, is_yes, is_yes_of,
  is_yes-no, if◌then◌else◌, arith, u64_mod, Option-cases, inl, inr,
}
use cipher_x.Std.Encoding.{le_bytes, length-le_bytes, of_le_bytes-le_bytes}
use cipher_x.Std.Result.{ok}
use cipher_x.Core.Types.{Block, BlockHash}
use cipher_x.Core.Block
use cipher_x.Crates.{Crates}
use cipher_x.Storage.Families.{
  ColumnFamily, cf_blocks_by_hash, cf_blocks_by_height, cf_key_images, cf_chain_state,
  cf_validators,
}
use cipher_x.Storage.Db.{
  key_height, key_tip, put_block, get_block_by_hash, get_block_by_height, save_chain_state,
  load_chain_state,
}

abbrev family_number : ColumnFamily → ℕ
family_number cf_blocks_by_hash = 0
family_number cf_blocks_by_height = 1
family_number cf_key_images = 2
family_number cf_chain_state = 3
family_number cf_validators = 4

abbrev same_key : ColumnFamily → Bytes → ColumnFamily → Bytes → Bool
same_key f k g j = (family_number f == family_number g) && is_yes (Bytes-discrete k j)

-- A value under the puts of a batch: the last put of the key, or the old value.
abbrev pub overlay :
    List (ColumnFamily × Bytes × Bytes) → ColumnFamily → Bytes → Option Bytes → Option Bytes
overlay [] f k old = old
overlay ((g, j, v) ∷ puts) f k old = overlay puts f k (if same_key g j f k then some v else old)

-- The documented behaviour of rocksdb where nothing fails: a batch is written as a whole, and reads
-- see the last write. Hashes have 32 bytes.
pub record DbLaws (c : Crates) : Type 0 where
  pub write_ok :
      (db : c.Db) (puts : List (ColumnFamily × Bytes × Bytes))
      → (db' : c.Db) × (c.db_write db puts ≡ some db')
  pub read_ok :
      (db : c.Db) (f : ColumnFamily) (k : Bytes) → (v : Option Bytes) × (c.db_get db f k ≡ some v)
  pub read-write :
      (db db' : c.Db) (puts : List (ColumnFamily × Bytes × Bytes)) (f : ColumnFamily) (k : Bytes)
      (v : Option Bytes)
      → c.db_write db puts ≡ some db'
      → c.db_get db f k ≡ some v
      → c.db_get db' f k ≡ some (overlay puts f k v)
  pub length-hash : (b : Block) → length (Block.hash c b) ≡ 32

-- The block is read back from its bincode encoding.
abbrev pub Encodes : Crates → Block → Type 0
Encodes c b =
    (bytes : Bytes) × (c.serialize_block b ≡ some bytes) × (c.deserialize_block bytes ≡ some b)

module _ {c : Crates} (laws : DbLaws c) where
  open c use {Db, db_get, db_write, serialize_block, deserialize_block}

  -- The database has this block at this height, under its hash.
  pub record Stored (db : Db) (height : ℕ) (b : Block) : Type 0 where
    pub bytes : Bytes
    pub by_height : db_get db cf_blocks_by_height (le_bytes 8 height) ≡ some (some (Block.hash c b))
    pub by_hash : db_get db cf_blocks_by_hash (Block.hash c b) ≡ some (some bytes)
    pub decoded : deserialize_block bytes ≡ some b

  pub get_block_by_height-Stored :
      (db : Db) (height : ℕ) (b : Block)
      → Stored db height b
      → get_block_by_height c height db ≡ ok (some b)
  unfolding get_block_by_height get_block_by_hash
  get_block_by_height-Stored db height b s =
      rw
        (
          s.by_height,
          laws.length-hash b,
          take_all 32 (Block.hash c b) (laws.length-hash b),
          s.by_hash,
          s.decoded,
        )
        refl

  read_after :
      (db db' : Db) (puts : List (ColumnFamily × Bytes × Bytes)) (f : ColumnFamily) (k : Bytes)
      (v w : Option Bytes)
      → db_write db puts ≡ some db'
      → db_get db f k ≡ some v
      → overlay puts f k v ≡ w
      → db_get db' f k ≡ some w
  read_after db db' puts f k v w written read e =
      laws.read-write db db' puts f k v written read ∙ ap some e

  -- Reading back a block that was put; another block at another height, under another hash, stays.
  pub put_block-Stored :
      (b : Block) (db : Db)
      → Encodes c b
      → (db' : Db) × (put_block c b db ≡ ok db')
        × Stored db' b.header.height b
        × ((height : ℕ) (old : Block)
            → Stored db height old
            → le_bytes 8 b.header.height ≢ le_bytes 8 height
            → Block.hash c b ≢ Block.hash c old
            → Stored db' height old)
        × ((k : Bytes) (v : Option Bytes)
            → db_get db cf_chain_state k ≡ some v
            → db_get db' cf_chain_state k ≡ some v)
  unfolding put_block
  put_block-Stored b db (encoded, e, d) =
      let h = Block.hash c b in
      let n = le_bytes 8 b.header.height in
      let puts : List (ColumnFamily × Bytes × Bytes) =
        (cf_blocks_by_hash, h, encoded) ∷ (cf_blocks_by_height, n, h) ∷ [] in
      let (db', written) = laws.write_ok db puts in
      (
        db',
        rw (e, written) refl,
        record {
          bytes = encoded;
          by_height =
              read_after db db' puts cf_blocks_by_height n _ (some h) written
                (laws.read_ok db cf_blocks_by_height n).1
                (rw (is_yes_of (Bytes-discrete n n) refl) refl);
          by_hash =
              read_after db db' puts cf_blocks_by_hash h _ (some encoded) written
                (laws.read_ok db cf_blocks_by_hash h).1
                (rw (is_yes_of (Bytes-discrete h h) refl) refl);
          decoded = d;
        },
        (λ height old s other_height other_hash. record {
          bytes = s.bytes;
          by_height =
              read_after db db' puts cf_blocks_by_height (le_bytes 8 height) _ _ written s.by_height
                (rw (is_yes-no (Bytes-discrete n (le_bytes 8 height)) other_height) refl);
          by_hash =
              read_after db db' puts cf_blocks_by_hash (Block.hash c old) _ _ written s.by_hash
                (rw (is_yes-no (Bytes-discrete h (Block.hash c old)) other_hash) refl);
          decoded = s.decoded;
        }),
        λ k v read. read_after db db' puts cf_chain_state k v v written read refl,
      )

  -- Reading back the state that was saved; blocks stay.
  pub save_chain_state-load_chain_state :
      (height : ℕ) (tip : BlockHash) (db : Db)
      → height < u64_mod
      → length tip ≡ 32
      → (db' : Db) × (save_chain_state c height tip db ≡ ok db')
        × (load_chain_state c db' ≡ ok (some (height, tip)))
        × ((h : ℕ) (old : Block) → Stored db h old → Stored db' h old)
  unfolding save_chain_state load_chain_state Bytes-discrete cipher_x.Prelude.ℕ_discrete
  save_chain_state-load_chain_state height tip db bound size =
      let puts : List (ColumnFamily × Bytes × Bytes) =
        (cf_chain_state, key_height, le_bytes 8 height) ∷ (cf_chain_state, key_tip, tip) ∷ [] in
      let (db', written) = laws.write_ok db puts in
      let got_height : db_get db' cf_chain_state key_height ≡ some (some (le_bytes 8 height)) =
        read_after db db' puts cf_chain_state key_height _ _ written
          (laws.read_ok db cf_chain_state key_height).1 refl in
      let got_tip : db_get db' cf_chain_state key_tip ≡ some (some tip) =
        read_after db db' puts cf_chain_state key_tip _ _ written
          (laws.read_ok db cf_chain_state key_tip).1 refl in
      (
        db',
        rw written refl,
        rw
            (
              got_height,
              got_tip,
              length-le_bytes 8 height,
              size,
              take_all 8 (le_bytes 8 height) (length-le_bytes 8 height),
              take_all 32 tip size,
              of_le_bytes-le_bytes 8 height bound,
            )
            refl,
        λ h old s. record {
          bytes = s.bytes;
          by_height =
              read_after db db' puts cf_blocks_by_height (le_bytes 8 h) _ _ written s.by_height
                refl;
          by_hash =
              read_after db db' puts cf_blocks_by_hash (Block.hash c old) _ _ written s.by_hash
                refl;
          decoded = s.decoded;
        },
      )
