-- ===== src/Core/Chain.antt =====
-- src/core/chain.rs: validation and application of blocks. Transactions of a block are validated in
-- parallel in the source; here in order, so that of several errors the first is the one returned.
pub mod Append
pub mod Open
use mathlib.Core.List.{flat_map}
use cipher_x.Prelude.{
  ◌/◌, mul64, length, ℕ, ◌+◌, ◌*◌, ◌≡◌, Bool, true, false, not, Option, none, some, List, [], ◌∷◌,
  ◌++◌, Bytes, suc, Bytes-discrete, ℕ_discrete, get_elem?, ◌==◌, if◌then◌else◌, is_yes, add64,
  saturating_add, map,
}
use cipher_x.Std.HashMap.{HashMap}
use cipher_x.Std.HashMap
use cipher_x.Std.HashSet.{HashSet}
use cipher_x.Std.HashSet
use cipher_x.Std.Result.{Result, ok, err}
use cipher_x.Core.Types.{
  Block, BlockHash, Transaction, TxId, KeyImage, StealthOutput, PedersenCommitment,
}
use cipher_x.Core.Block.{genesis}
use cipher_x.Core.Block
use cipher_x.Core.Transaction.{is_coinbase, key_images}
use cipher_x.Core.Transaction
use cipher_x.Core.Params.{halving_interval, max_supply, premine, ncip, block_reward}
use cipher_x.Storage.Db.{put_block, save_chain_state}
use cipher_x.Crates.{Crates}

-- The messages, without their texts.
pub data ChainError : Type 0 where
  height_mismatch : ℕ → ℕ → ChainError
  invalid_prev_hash invalid_signature : ChainError
  double_spend : KeyImage → ChainError
  many_coinbases late_coinbase proof_failed : ChainError  -- InvalidTransaction
  block_not_found : ℕ → ChainError
  storage_error : ChainError

pub record UtxoEntry : Type 0 where
  pub output : StealthOutput
  pub block_height : ℕ
  pub tx_id : TxId
  pub output_index : ℕ

pub record ExitRequest : Type 0 where
  pub validator_commitment : Bytes
  pub request_height : ℕ
  pub unlock_height : ℕ
  pub stake_commitment : PedersenCommitment

pub record ChainStats : Type 0 where
  pub height : ℕ
  pub tip_hash : BlockHash
  pub utxo_count : ℕ
  pub spent_outputs : ℕ
  pub pending_exits : ℕ
  pub total_validators : ℕ
  pub circulating_supply_cip : ℕ
  pub next_block_reward_cip : ℕ
  pub next_halving_block : ℕ

pub record Chain (c : Crates) : Type 0 where
  pub blocks_by_hash : HashMap BlockHash Block
  pub blocks_by_height : List BlockHash
  pub utxo_set : HashMap (TxId × ℕ) UtxoEntry
  pub spent_key_images : HashSet KeyImage
  pub pending_exits : List ExitRequest
  pub total_validators : ℕ
  pub circulating_supply : ℕ
  pub height : ℕ
  pub tip_hash : BlockHash
  pub db : Option c.Db

unfoldable pub outpoint-discrete : Discrete (TxId × ℕ)
outpoint-discrete = hlevel (Bytes-discrete, ℕ_discrete)

unfoldable pub block_key_images : Block → List KeyImage
block_key_images b = flat_map key_images b.transactions

-- The first key image that is in `seen` or occurs twice.
unfoldable pub repeated : HashSet KeyImage → List KeyImage → Option KeyImage
repeated seen [] = none
repeated seen (k ∷ ks) =
    let (seen', new) = HashSet.insert Bytes-discrete k seen in
    let rest = repeated seen' ks in if new then rest else some k

unfoldable pub coinbase_count : List Transaction → ℕ
coinbase_count [] = 0
coinbase_count (tx ∷ txs) = if is_coinbase tx then suc (coinbase_count txs) else coinbase_count txs

unfoldable pub coinbase_first : List Transaction → Bool
coinbase_first [] = false
coinbase_first (tx ∷ _) = is_coinbase tx

-- The first key image of the transaction that is spent on the chain.
unfoldable pub already_spent : HashSet KeyImage → List KeyImage → Option KeyImage
already_spent spent [] = none
already_spent spent (k ∷ ks) =
    if HashSet.contains Bytes-discrete k spent then some k else already_spent spent ks

module _ {c : Crates} where
  -- `Chain::new`, at the clock's reading `now`.
  unfoldable pub new : ℕ → Chain c
  new now =
      let g = genesis now in
      let h = Block.hash c g in
      record {
        blocks_by_hash = HashMap.insert Bytes-discrete h g HashMap.empty;
        blocks_by_height = h ∷ [];
        utxo_set = HashMap.empty;
        spent_key_images = HashSet.empty;
        pending_exits = [];
        total_validators = 1;
        circulating_supply = premine * ncip;
        height = 0;
        tip_hash = h;
        db = none;
      }

  -- `tip`; `none` would be the panic of `unwrap`.
  unfoldable pub tip : Chain c → Option Block
  tip ch = HashMap.get Bytes-discrete ch.tip_hash ch.blocks_by_hash

  unfoldable pub block_by_hash : BlockHash → Chain c → Option Block
  block_by_hash h ch = HashMap.get Bytes-discrete h ch.blocks_by_hash

  unfoldable pub block_at : ℕ → Chain c → Option Block
  unfolding block_by_hash
  block_at height ch = elim (get_elem? ch.blocks_by_height height) [
    | none ↦ none
    | some h ↦ block_by_hash h ch
  ]

  -- `none` is `Ok(())`.
  unfoldable pub validate_transaction : Transaction → Chain c → Option ChainError
  unfolding already_spent
  validate_transaction tx ch = elim (already_spent ch.spent_key_images (key_images tx)) [
    | some k ↦ some (double_spend k)
    | none ↦ if Transaction.verify c tx then none else some proof_failed
  ]

  unfoldable pub validate_all : List Transaction → Chain c → Option ChainError
  unfolding validate_transaction
  validate_all [] ch = none
  validate_all (tx ∷ txs) ch = elim (validate_transaction tx ch) [
    | some e ↦ some e
    | none ↦ validate_all txs ch
  ]

  unfoldable pub all_utxos : Chain c → List UtxoEntry
  all_utxos ch = HashMap.values ch.utxo_set

  -- The hash is not turned into hexadecimal digits.
  unfoldable pub stats : Chain c → ChainStats
  stats ch = record {
    height = ch.height;
    tip_hash = ch.tip_hash;
    utxo_count = HashMap.len ch.utxo_set;
    spent_outputs = HashSet.len ch.spent_key_images;
    pending_exits = length ch.pending_exits;
    total_validators = ch.total_validators;
    circulating_supply_cip = ch.circulating_supply / ncip;
    next_block_reward_cip = block_reward (add64 ch.height 1) / ncip;
    next_halving_block = mul64 (add64 (ch.height / halving_interval) 1) halving_interval;
  }
