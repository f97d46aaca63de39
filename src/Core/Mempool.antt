-- ===== src/Core/Mempool.antt =====
-- src/core/mempool.rs. Errors are without their texts; the pool's order is that of insertion.
pub mod Index
use mathlib.Core.List.{filter_map, foldl}
use cipher_x.Prelude.{
  ℕ, ◌+◌, ◌≤◌, ◌<◌, ◌≡◌, refl, Bool, true, false, not, Option, none, some, List, [], ◌∷◌, ◌++◌,
  Bytes, Bytes-discrete, take, leb, ltb, if◌then◌else◌, arith, All, Bool-cases, Option-cases, inl,
  inr, ◌⊎◌,
}
use cipher_x.Std.HashMap.{HashMap}
use cipher_x.Std.HashMap
use cipher_x.Std.Result.{Result, ok, err}
use cipher_x.Core.Types.{Transaction, TxId, KeyImage}
use cipher_x.Core.Transaction.{key_images}
use cipher_x.Core.Transaction
use cipher_x.Crates.{Crates}

pub data MempoolError : Type 0 where
  full : MempoolError
  key_image_pending : TxId → MempoolError
  verification_failed : MempoolError

abbrev pub max_mempool_size : ℕ
max_mempool_size = 50_000

pub record Mempool : Type 0 where
  pub txs : HashMap TxId Transaction
  pub pending_key_images : HashMap KeyImage TxId

abbrev pub new : Mempool
new = record { txs = HashMap.empty; pending_key_images = HashMap.empty }

-- The pending transaction of the first key image that is pending already.
unfoldable pub conflict : HashMap KeyImage TxId → List KeyImage → Option TxId
conflict pending [] = none
conflict pending (k ∷ ks) =
    let rest = conflict pending ks in
    elim (HashMap.get Bytes-discrete k pending) [ none ↦ rest | some tx_id ↦ some tx_id ]

-- The loop that registers the key images.
unfoldable pub register : TxId → List KeyImage → HashMap KeyImage TxId → HashMap KeyImage TxId
register tx_id [] pending = pending
register tx_id (k ∷ ks) pending = register tx_id ks (HashMap.insert Bytes-discrete k tx_id pending)

-- The loop that releases them.
unfoldable pub release : List KeyImage → HashMap KeyImage TxId → HashMap KeyImage TxId
release [] pending = pending
release (k ∷ ks) pending = release ks (HashMap.remove Bytes-discrete k pending)

unfoldable pub add : (c : Crates) → Transaction → Mempool → Mempool × Result MempoolError TxId
unfolding conflict register
add c tx pool =
    if leb max_mempool_size (HashMap.len pool.txs)
    then (pool, err full)
    else elim (conflict pool.pending_key_images (key_images tx)) [
      | some tx_id ↦ (pool, err (key_image_pending tx_id))
      | none ↦
          if not (Transaction.verify c tx)
          then (pool, err verification_failed)
          else (let tx_id = Transaction.id c tx in
              (
                record {
                  txs = HashMap.insert Bytes-discrete tx_id tx pool.txs;
                  pending_key_images = register tx_id (key_images tx) pool.pending_key_images;
                },
                ok tx_id,
              ))
    ]

unfoldable pub remove : TxId → Mempool → Mempool
unfolding release
remove tx_id pool = elim (HashMap.get Bytes-discrete tx_id pool.txs) [
  | none ↦ pool
  | some tx ↦ record {
    txs = HashMap.remove Bytes-discrete tx_id pool.txs;
    pending_key_images = release (key_images tx) pool.pending_key_images;
  }
]

unfoldable pub get_for_block : ℕ → Mempool → List Transaction
get_for_block limit pool = take limit (HashMap.values pool.txs)

-- The pending transactions of the key images.
unfoldable pub to_remove : List KeyImage → Mempool → List TxId
to_remove spent pool = filter_map (λ k. HashMap.get Bytes-discrete k pool.pending_key_images) spent

unfoldable pub remove_all : List TxId → Mempool → Mempool
unfolding remove
remove_all [] pool = pool
remove_all (i ∷ is) pool = remove_all is (remove i pool)

unfoldable pub purge_spent : List KeyImage → Mempool → Mempool
unfolding to_remove remove_all
purge_spent spent pool = remove_all (to_remove spent pool) pool

unfoldable pub size : Mempool → ℕ
size pool = HashMap.len pool.txs

unfoldable pub is_empty : Mempool → Bool
unfolding size
is_empty pool = elim (ltb 0 (size pool)) [ true ↦ false | false ↦ true ]
