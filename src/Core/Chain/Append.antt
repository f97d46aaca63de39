-- ===== src/Core/Chain/Append.antt =====
-- src/core/chain.rs: `apply_block` and `append_block`.
pub mod Accept
pub mod History
pub mod Supply
pub mod Links
use cipher_x.Prelude.{
  ℕ, suc, ◌+◌, ◌*◌, ◌%◌, ◌≡◌, Bool, true, false, not, ◌&&◌, Option, none, some, List, [], ◌∷◌, ◌++◌,
  Bytes-discrete, min, ltb, ◌==◌, if◌then◌else◌, is_yes, add64, saturating_add, u32_mod,
}
use cipher_x.Std.HashMap.{HashMap}
use cipher_x.Std.HashMap
use cipher_x.Std.HashSet.{HashSet}
use cipher_x.Std.HashSet
use cipher_x.Std.Result.{Result, ok, err}
use cipher_x.Core.Types.{Block, BlockHash, Transaction, TxId, KeyImage, StealthOutput}
use cipher_x.Core.Block
use cipher_x.Core.Transaction.{is_coinbase, key_images}
use cipher_x.Core.Transaction
use cipher_x.Core.Params.{max_supply, ncip, block_reward}
use cipher_x.Core.Chain.{
  Chain, ChainError, UtxoEntry, height_mismatch, invalid_prev_hash, double_spend, many_coinbases,
  late_coinbase, outpoint-discrete, block_key_images, repeated, coinbase_count, coinbase_first,
  validate_all,
}
use cipher_x.Storage.Db.{put_block, save_chain_state}
use cipher_x.Crates.{Crates}

-- Mark the inputs of a transaction as spent.
unfoldable pub spend : List KeyImage → HashSet KeyImage → HashSet KeyImage
spend [] spent = spent
spend (k ∷ ks) spent = spend ks (HashSet.insert Bytes-discrete k spent).0

-- Add the outputs of a transaction, from output number `idx`.
unfoldable pub add_outputs :
    TxId → ℕ → ℕ → List StealthOutput → HashMap (TxId × ℕ) UtxoEntry → HashMap (TxId × ℕ) UtxoEntry
add_outputs tx_id height idx [] utxos = utxos
add_outputs tx_id height idx (o ∷ os) utxos = add_outputs tx_id height (suc idx) os (
    HashMap.insert outpoint-discrete (tx_id, idx % u32_mod)
      (record { output = o; block_height = height; tx_id = tx_id; output_index = idx % u32_mod })
      utxos)

-- The supply after the reward of a coinbase, up to the hard cap.
unfoldable pub reward_supply : ℕ → ℕ → ℕ
reward_supply height supply = min (saturating_add supply (block_reward height)) (max_supply * ncip)

-- The two writes at the end of `append_block`, whose errors are only logged.
abbrev or_keep : {E A : Type 0} → A → Result E A → A
or_keep a (ok b) = b
or_keep a (err e) = a

module _ {c : Crates} where
  unfoldable pub apply_transaction : ℕ → Transaction → Chain c → Chain c
  unfolding spend add_outputs reward_supply
  apply_transaction height tx ch = record ch {
    utxo_set = add_outputs (Transaction.id c tx) height 0 tx.outputs ch.utxo_set;
    spent_key_images = spend (key_images tx) ch.spent_key_images;
    circulating_supply =
        if is_coinbase tx
        then reward_supply height ch.circulating_supply
        else ch.circulating_supply;
  }

  unfoldable pub apply_all : ℕ → List Transaction → Chain c → Chain c
  unfolding apply_transaction
  apply_all height [] ch = ch
  apply_all height (tx ∷ txs) ch = apply_all height txs (apply_transaction height tx ch)

  -- `apply_block`, which returns `Ok(())` always.
  unfoldable pub apply_block : Block → Chain c → Chain c
  unfolding apply_all
  apply_block b ch = apply_all b.header.height b.transactions ch

  unfoldable pub persist : Block → Chain c → Chain c
  persist b ch = record ch {
    db = elim ch.db [
      | none ↦ none
      | some db ↦
          let db1 = or_keep db (put_block c b db) in
          some (or_keep db1 (save_chain_state c ch.height ch.tip_hash db1))
    ];
  }

  -- The chain after a block that passed all checks.
  unfoldable pub extend : Block → Chain c → Chain c
  unfolding apply_block persist
  extend b ch =
      let h = Block.hash c b in
      let applied = apply_block b ch in
      persist b (record applied {
        height = add64 ch.height 1;
        tip_hash = h;
        blocks_by_height = applied.blocks_by_height ++ h ∷ [];
        blocks_by_hash = HashMap.insert Bytes-discrete h b applied.blocks_by_hash;
      })

  -- The checks of `append_block`, in order; `none` if the block passes them all.
  unfoldable pub check_block : Block → Chain c → Option ChainError
  check_block b ch =
      if not (b.header.height == add64 ch.height 1)
      then some (height_mismatch (add64 ch.height 1) b.header.height)
      else if not (is_yes (Bytes-discrete b.header.prev_hash ch.tip_hash))
      then some invalid_prev_hash
      else if ltb 1 (coinbase_count b.transactions)
      then some many_coinbases
      else if coinbase_count b.transactions == 1 && not (coinbase_first b.transactions)
      then some late_coinbase
      else elim (repeated HashSet.empty (block_key_images b)) [
        | some k ↦ some (double_spend k)
        | none ↦ validate_all b.transactions ch
      ]

  unfoldable pub append_block : Block → Chain c → Chain c × Result ChainError (Unit {0})
  unfolding check_block extend
  append_block b ch = elim (check_block b ch) [ some e ↦ (ch, err e) | none ↦ (extend b ch, ok tt) ]
