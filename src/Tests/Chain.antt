-- ===== src/Tests/Chain.antt =====
-- A chain with two blocks.
use cipher_x.Prelude.{
  ap, add64, some, Bytes, ◌*◌, ◌≤◌, ◌≡◌, ◌↔◌, refl, [], ◌∷◌, arith, Bytes-discrete, ℕ_discrete,
  Distinct,
}
use cipher_x.Std.HashSet
use cipher_x.Std.Result.{ok}
use cipher_x.Core.Types.{Block, Transaction, RingInput, KeyImage, lite}
use cipher_x.Core.Block.{genesis, compute_tx_root}
use cipher_x.Core.Merkle.{reduce}
use cipher_x.Core.Merkle.Root.{compute_tx_root-some}
use cipher_x.Core.Block
use cipher_x.Core.Transaction.{coinbase_placeholder, key_images}
use cipher_x.Core.Transaction
use mathlib.Core.List.{flat_map}
use cipher_x.Core.Params.{max_supply, premine, ncip}
use cipher_x.Core.Chain.{Chain}
use cipher_x.Core.Chain
use cipher_x.Core.Chain.Append.{append_block}
use cipher_x.Core.Chain.Append.Accept.{ValidBlock, append_block-ok_iff, append_block-unchanged}
use cipher_x.Core.Chain.Append.History.{append_blocks, no_double_spend}
use cipher_x.Core.Chain.Append.Supply.{supply_in_bounds}
use cipher_x.Core.Chain.Append.Links.{Linked, history-Linked}
use cipher_x.Node.Peers.{apply_received, run_sync_client}
use cipher_x.Node.Peers.Requests.{asked}
use cipher_x.Node.Peers.CatchUp.{apply_received-run_sync_client}
use cipher_x.Tests.Toy.{toy, head_or_zero}

abbrev spending : KeyImage → RingInput
spending k = record {
  ring_members = [];
  key_image = k;
  ring_signature = [];
  pseudo_commitment = [];
}

-- A lite transaction with two inputs.
abbrev lite_tx : Transaction
lite_tx = record {
  tx_type = lite;
  inputs = spending (1 ∷ []) ∷ spending (2 ∷ []) ∷ [];
  outputs = [];
  fee_commitment = [];
  fee_proof = [];
  extra = [];
  version = 1;
}

abbrev start : Chain toy
start = Chain.new 0

-- The next block, with a coinbase and the transaction.
abbrev next_block : Block
next_block = record (genesis 0) {
  header = record (genesis 0).header { height = 1; prev_hash = Block.hash toy (genesis 0) };
  transactions = coinbase_placeholder 1 ∷ lite_tx ∷ [];
}

-- The block is taken once.
blocks_taken : (append_block next_block start).1 ≡ ok tt
unfolding append_block Chain.new Bytes-discrete Block.hash ℕ_discrete genesis Chain.coinbase_count
    coinbase_placeholder Chain.coinbase_first Chain.repeated Chain.block_key_images flat_map
    key_images HashSet.insert Chain.validate_all Transaction.verify
blocks_taken = refl

append_block-ok_iff_example :
    (append_block next_block start).1 ≡ ok tt ↔ ValidBlock next_block start
append_block-ok_iff_example = append_block-ok_iff next_block start

-- The genesis block is no valid block.
append_block-unchanged_example : (append_block (genesis 0) start).0 ≡ start
unfolding Chain.new genesis
append_block-unchanged_example =
    append_block-unchanged (genesis 0) start (λ v. absurd (omega (arith, v.next_height)))

no_double_spend_example :
    Distinct (append_blocks {c = toy} (next_block ∷ next_block ∷ []) (Chain.new 0, [])).1
no_double_spend_example = no_double_spend toy 0 (next_block ∷ next_block ∷ [])

supply_in_bounds_example :
    (premine * ncip
      ≤ (append_blocks {c = toy} (next_block ∷ []) (Chain.new 0, [])).0.circulating_supply)
    × ((append_blocks {c = toy} (next_block ∷ []) (Chain.new 0, [])).0.circulating_supply
        ≤ max_supply * ncip)
supply_in_bounds_example = supply_in_bounds toy 0 (next_block ∷ [])

history-Linked_example : Linked (append_blocks {c = toy} (next_block ∷ []) (Chain.new 0, [])).0
history-Linked_example = history-Linked toy 0 (next_block ∷ []) (omega arith)

compute_tx_root-some_example :
    (r : Bytes) × (reduce (Block.node_hash toy) 3 (
        Transaction.commitment_hash toy lite_tx
        ∷ Transaction.commitment_hash toy lite_tx
        ∷ Transaction.commitment_hash toy lite_tx
        ∷ [])
      ≡ some (r ∷ []))
    × (compute_tx_root toy (lite_tx ∷ lite_tx ∷ lite_tx ∷ []) ≡ some r)
compute_tx_root-some_example = compute_tx_root-some toy lite_tx (lite_tx ∷ lite_tx ∷ [])

toy_heights :
    (b b' : Block) → Block.hash toy b ≡ Block.hash toy b' → b.header.height ≡ b'.header.height
unfolding Block.hash Block.header_hash
toy_heights b b' e = ap head_or_zero e

apply_received-run_sync_client_example :
    apply_received
      (run_sync_client
        (apply_received (next_block ∷ next_block ∷ []) start).height
        (asked (apply_received (next_block ∷ next_block ∷ []) start))
        (add64 start.height 1)
        (apply_received (next_block ∷ next_block ∷ []) start).height
        0)
      start
    ≡ apply_received (next_block ∷ next_block ∷ []) start
unfolding Chain.new
apply_received-run_sync_client_example =
    apply_received-run_sync_client toy_heights start (next_block ∷ next_block ∷ []) refl
      (omega arith)
