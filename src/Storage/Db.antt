-- ===== src/Storage/Db.antt =====
-- src/storage/db.rs: `CipherXDb` over RocksDB. Its methods take `&self`: the database that a successful
-- write leaves is returned, and a failed write leaves it as it was.
use cipher_x.Prelude.{
  ℕ, Bool, true, false, ◌||◌, Option, none, some, [], ◌∷◌, Bytes, length, take, ltb, if◌then◌else◌,
}
use cipher_x.Std.Encoding.{le_bytes, of_le_bytes, ascii}
use cipher_x.Std.Result.{Result, ok, err}
use cipher_x.Core.Types.{Block, BlockHash}
use cipher_x.Core.Block
use cipher_x.Crates.{Crates}
use cipher_x.Storage.Families.{
  cf_blocks_by_hash, cf_blocks_by_height, cf_key_images, cf_chain_state, cf_validators,
}

-- The messages, without their texts.
pub data DbError : Type 0 where
  io encoding corrupt : DbError

abbrev pub or_err : {A : Type 0} → DbError → Option A → Result DbError A
or_err e none = err e
or_err e (some a) = ok a

infixl 5 ◌>>=◌
abbrev pub ◌>>=◌ : {A B : Type 0} → Result DbError A → (A → Result DbError B) → Result DbError B
◌>>=◌ (ok a) f = f a
◌>>=◌ (err e) f = err e

abbrev pub key_height : Bytes
key_height = ascii "height"

abbrev pub key_tip : Bytes
key_tip = ascii "tip"

module _ (c : Crates) where
  open c use {serialize_block, deserialize_block, Db, db_write, db_get}

  unfoldable pub put_block : Block → Db → Result DbError Db
  put_block block db = do
    encoded ← or_err encoding (serialize_block block)
    or_err io (
        db_write db (
          (cf_blocks_by_hash, Block.hash c block, encoded)
          ∷ (cf_blocks_by_height, le_bytes 8 block.header.height, Block.hash c block)
          ∷ []))

  decode_block : Option Bytes → Result DbError (Option Block)
  decode_block none = ok none
  decode_block (some b) = do block ← or_err encoding (deserialize_block b); ok (some block)

  unfoldable pub get_block_by_hash : BlockHash → Db → Result DbError (Option Block)
  unfolding decode_block
  get_block_by_hash hash db = do r ← or_err io (db_get db cf_blocks_by_hash hash); decode_block r

  by_hash_bytes : Db → Option Bytes → Result DbError (Option Block)
  unfolding get_block_by_hash
  by_hash_bytes db none = ok none
  by_hash_bytes db (some b) =
      if ltb (length b) 32 then err corrupt else get_block_by_hash (take 32 b) db

  unfoldable pub get_block_by_height : ℕ → Db → Result DbError (Option Block)
  unfolding by_hash_bytes
  get_block_by_height height db = do
    r ← or_err io (db_get db cf_blocks_by_height (le_bytes 8 height))
    by_hash_bytes db r

  unfoldable pub put_key_image : Bytes → Db → Result DbError Db
  put_key_image ki db = or_err io (db_write db ((cf_key_images, ki, ascii "1") ∷ []))

  unfoldable pub has_key_image : Bytes → Db → Result DbError Bool
  has_key_image ki db = do
    r ← or_err io (db_get db cf_key_images ki)
    ok (elim r [ none ↦ false | some _ ↦ true ])

  unfoldable pub save_chain_state : ℕ → BlockHash → Db → Result DbError Db
  save_chain_state height tip db = or_err io (
      db_write db
        ((cf_chain_state, key_height, le_bytes 8 height) ∷ (cf_chain_state, key_tip, tip) ∷ []))

  decode_state : Bytes → Bytes → Result DbError (Option (ℕ × BlockHash))
  decode_state h t =
      if ltb (length h) 8 || ltb (length t) 32
      then err corrupt
      else ok (some (of_le_bytes (take 8 h), take 32 t))

  unfoldable pub load_chain_state : Db → Result DbError (Option (ℕ × BlockHash))
  unfolding decode_state
  load_chain_state db = do
    h ← or_err io (db_get db cf_chain_state key_height)
    elim h [
      | none ↦ ok none
      | some h_bytes ↦ do
        t ← or_err io (db_get db cf_chain_state key_tip)
        elim t [ none ↦ ok none | some t_bytes ↦ decode_state h_bytes t_bytes ]
    ]

  unfoldable pub put_validator : Bytes → Bytes → Db → Result DbError Db
  put_validator nullifier bytes db =
      or_err io (db_write db ((cf_validators, nullifier, bytes) ∷ []))

  unfoldable pub get_validator : Bytes → Db → Result DbError (Option Bytes)
  get_validator nullifier db = or_err io (db_get db cf_validators nullifier)
