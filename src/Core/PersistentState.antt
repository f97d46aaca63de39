-- ===== src/Core/PersistentState.antt =====
-- src/core/state.rs: `PersistentState`, a database handle with a fee market. Opening it is left out.
use cipher_x.Prelude.{ℕ, Bool, Option, Bytes}
use cipher_x.Std.Result.{Result, ok, err}
use cipher_x.Core.Types.{Block, BlockHash}
use cipher_x.Core.Block
use cipher_x.Core.FeeMarket.{FeeMarket, update}
use cipher_x.Storage.Db.{
  DbError, put_block, save_chain_state, load_chain_state, put_key_image, has_key_image,
}
use cipher_x.Crates.{Crates}

pub record PersistentState (c : Crates) : Type 0 where
  pub db : c.Db
  pub fee_market : FeeMarket

module _ {c : Crates} where
  -- The state over the database that a write leaves, or the error with the state as it was.
  abbrev written :
      PersistentState c → Result DbError c.Db → PersistentState c × Result DbError (Unit {0})
  written s (ok db) = (record s { db = db }, ok tt)
  written s (err e) = (s, err e)

  unfoldable pub save_tip :
      ℕ → BlockHash → PersistentState c → PersistentState c × Result DbError (Unit {0})
  save_tip height tip s = written s (save_chain_state c height tip s.db)

  -- The block first; the tip only if the block could be written.
  unfoldable pub persist_block :
      Block → PersistentState c → PersistentState c × Result DbError (Unit {0})
  unfolding save_tip
  persist_block b s = elim (put_block c b s.db) [
    | err e ↦ (s, err e)
    | ok db ↦ save_tip b.header.height (Block.hash c b) (record s { db = db })
  ]

  unfoldable pub load_tip : PersistentState c → Result DbError (Option (ℕ × BlockHash))
  load_tip s = load_chain_state c s.db

  unfoldable pub persist_key_image :
      Bytes → PersistentState c → PersistentState c × Result DbError (Unit {0})
  persist_key_image ki s = written s (put_key_image c ki s.db)

  unfoldable pub is_key_image_spent : Bytes → PersistentState c → Result DbError Bool
  is_key_image_spent ki s = has_key_image c ki s.db

  unfoldable pub on_block_applied : ℕ → PersistentState c → PersistentState c
  on_block_applied gas_used s = record s { fee_market = update gas_used s.fee_market }

  unfoldable pub base_fee : PersistentState c → ℕ
  base_fee s = s.fee_market.base_fee_per_gas
