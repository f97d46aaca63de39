-- ===== src/Core/Block.antt =====
-- src/core/block.rs: block hashes, the genesis block and the transaction root.
use cipher_x.Prelude.{ℕ, List, [], ◌∷◌, Option, some, Bytes, ◌++◌, map, length, replicate}
use cipher_x.Std.Options.{◌>>=◌}
use cipher_x.Core.Types.{Block, BlockHeader, BlockHash, Transaction, ValidatorCommitment}
use cipher_x.Core.Merkle.{reduce, first}
use cipher_x.Core.Transaction.{commitment_hash}
use cipher_x.Crates.{Crates}

abbrev pub zero_hash : BlockHash
zero_hash = replicate 32 0

-- `ValidatorCommitment::placeholder`
abbrev pub placeholder : ValidatorCommitment
placeholder = record { public_key = replicate 32 0; nullifier = replicate 32 0 }

-- The genesis block, at the clock's reading `now`.
unfoldable pub genesis : ℕ → Block
genesis now = record {
  header = record {
    version = 1;
    height = 0;
    timestamp = now;
    prev_hash = zero_hash;
    tx_root = zero_hash;
    state_root = zero_hash;
    validator_commitment = placeholder;
    round = 0;
  };
  transactions = [];
  signatures = [];
}

unfoldable pub tx_count : Block → ℕ
tx_count b = length b.transactions

module _ (c : Crates) where
  open c use {sha3_256, serialize_header}

  unfoldable pub header_hash : BlockHeader → BlockHash
  header_hash h = sha3_256 (serialize_header h)

  unfoldable pub hash : Block → BlockHash
  unfolding header_hash
  hash b = header_hash b.header

  -- The hash of an inner node.
  unfoldable pub node_hash : Bytes → Bytes → Bytes
  node_hash l r = sha3_256 (l ++ r)

  -- With fuel for as many levels as there are leaves; `none` would be a panic, or a loop that does
  -- not end within them.
  unfoldable pub compute_tx_root : List Transaction → Option BlockHash
  unfolding node_hash
  compute_tx_root [] = some zero_hash
  compute_tx_root (tx ∷ txs) =
      let leaves = map (commitment_hash c) (tx ∷ txs) in
      reduce node_hash (length leaves) leaves >>= first
