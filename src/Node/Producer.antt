-- ===== src/Node/Producer.antt =====
-- `build_block` and the tick of the main loop of src/main.rs, for a node that is the only validator.
-- The clocks and the random scalars of the coinbase are arguments; what is sent is a list.
pub mod Valid
pub mod Grows
pub mod Run
use cipher_x.Prelude.{
  ℕ, Bool, true, false, not, ◌&&◌, Option, none, some, List, [], ◌∷◌, ◌++◌, if◌then◌else◌, add64,
}
use cipher_x.Std.Options.{◌>>=◌}
use cipher_x.Std.Result.{Result, ok, err}
use cipher_x.Core.Types.{Block, BlockHash, Transaction, StealthAddress}
use cipher_x.Core.Block.{compute_tx_root, zero_hash, placeholder}
use cipher_x.Core.Params.{block_reward}
use cipher_x.Core.Transaction.{coinbase_placeholder}
use cipher_x.Core.Transaction.Coinbase.{build_coinbase}
use cipher_x.Core.Chain.{Chain, ChainError}
use cipher_x.Core.Chain.Append.{append_block}
use cipher_x.Crates.{Crates}
use cipher_x.Crypto.Ringct.Prove.{Nonces}
use cipher_x.Consensus.Vote.{Vote}
use cipher_x.Consensus.State.{Engine, ConsensusOutput, broadcast_vote, is_proposer}
use cipher_x.Consensus.Rounds.{start_height}
use cipher_x.Consensus.Engine.{check_timeout}
use cipher_x.Node.Solo.{drive_solo_consensus}

-- The random scalars of a coinbase.
pub record Draws (c : Crates) : Type 0 where
  pub r : c.Scalar
  pub blinding : c.Scalar
  pub random : ℕ → c.Scalar
  pub nonces : ℕ → Nonces c

-- What the node sends: to the peers of the gossip, and to those that are connected.
pub data Sent : Type 0 where
  sent_vote : Vote → Sent
  gossip_block : Block → Sent
  push_block : Block → Sent

module _ (c : Crates) where
  unfoldable pub coinbase_for : ℕ → Option StealthAddress → Draws c → Option Transaction
  coinbase_for height none draws = some (coinbase_placeholder height)
  coinbase_for height (some addr) draws =
      build_coinbase c addr (block_reward height) height draws.r draws.blinding draws.random
        draws.nonces

  -- `none` is a panic of `build_coinbase` or `compute_tx_root`.
  unfoldable pub build_block :
      ℕ → BlockHash → Option StealthAddress → List Transaction → ℕ → Draws c → Option Block
  unfolding coinbase_for
  build_block height prev_hash reward_address pending_txs now draws = do
    coinbase ← coinbase_for height reward_address draws
    tx_root ← compute_tx_root c (coinbase ∷ pending_txs)
    some (record {
      header = record {
        version = 1;
        height = height;
        timestamp = now;
        prev_hash = prev_hash;
        tx_root = tx_root;
        state_root = zero_hash;
        validator_commitment = placeholder;
        round = 0;
      };
      transactions = coinbase ∷ pending_txs;
      signatures = [];
    })

pub record Node (c : Crates) : Type 0 where
  pub is_sync_mode : Bool
  pub reward_address : Option StealthAddress
  pub chain : Chain c
  pub consensus : Engine c
  pub mempool : List Transaction
  pub blocks_mined : ℕ

abbrev pub vote_sent : Option ConsensusOutput → List Sent
vote_sent (some (broadcast_vote v)) = sent_vote v ∷ []
vote_sent _ = []

module _ {c : Crates} where
  -- The node after `append_block` has returned.
  unfoldable pub after_append :
      ℕ → ℕ → Block → Node c → Chain c × Result ChainError (Unit {0}) → Node c × List Sent
  after_append now next_height finalized n (chain, ok _) = (
    record n {
      chain = chain;
      blocks_mined = add64 n.blocks_mined 1;
      consensus = (start_height (add64 next_height 1) now n.consensus).0;
    },
    gossip_block finalized ∷ push_block finalized ∷ [],
  )
  after_append now next_height finalized n (chain, err e) =
      (record n { chain = chain; consensus = (start_height next_height now n.consensus).0 }, [])

  -- A finalized block goes into the chain and out to the peers.
  unfoldable pub apply_finalized : ℕ → ℕ → Block → Node c → Node c × List Sent
  unfolding after_append
  apply_finalized now next_height finalized n =
      after_append now next_height finalized n (append_block finalized n.chain)

  unfoldable pub finish_drive : ℕ → ℕ → Node c → Engine c × Option Block → Node c × List Sent
  unfolding apply_finalized
  finish_drive now next_height n (consensus, some finalized) =
      apply_finalized now next_height finalized (record n { consensus = consensus })
  finish_drive now next_height n (consensus, none) =
      let (consensus', out) = check_timeout now consensus in
      (record n { consensus = consensus' }, vote_sent out)

  unfoldable pub drive_or_wait : ℕ → ℕ → Block → Node c → Node c × List Sent
  unfolding finish_drive
  drive_or_wait now next_height block n =
      finish_drive now next_height n (drive_solo_consensus now block n.consensus)

  -- With the test whether it is the node's turn; `none` is a panic.
  unfoldable pub take_turn : Bool → ℕ → Draws c → Node c → Option (Node c × List Sent)
  unfolding drive_or_wait
  take_turn true now draws n = do
    let next_height = add64 n.chain.height 1
    block ← build_block c next_height n.chain.tip_hash n.reward_address n.mempool now draws
    some (drive_or_wait now next_height block (record n { mempool = [] }))
  take_turn false now draws n = some (n, [])

  unfoldable pub tick : ℕ → Draws c → Node c → Option (Node c × List Sent)
  unfolding take_turn
  tick now draws n = take_turn (not n.is_sync_mode && is_proposer n.consensus) now draws n
