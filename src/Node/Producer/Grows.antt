-- ===== src/Node/Producer/Grows.antt =====
-- One tick of a single validator, src/main.rs.

use cipher_x.Prelude.{
  ℕ, ◌≡◌, refl, ap, ◌∙◌, true, false, not, ◌&&◌, Option, none, some, List, [], ◌∷◌, Bytes, All,
  arith, add64,
}
use cipher_x.Std.Options.{◌>>=◌}
use cipher_x.Std.Result.{ok}
use cipher_x.Core.Types.{
  Block, BlockHash, Transaction, StealthAddress, ValidatorCommitment, coinbase,
}
use cipher_x.Core.Block.{compute_tx_root}
use cipher_x.Core.Merkle.Root.{compute_tx_root-some}
use cipher_x.Core.Transaction.{coinbase_placeholder}
use cipher_x.Core.Chain.{Chain}
use cipher_x.Core.Chain.Append.{append_block, extend}
use cipher_x.Core.Chain.Append.Accept.{ValidBlock, append_block-none, ValidBlock-check_block}
use cipher_x.Crates.{Crates}
use cipher_x.Crypto.Group.{GroupLaws}
use cipher_x.Consensus.State.{Engine, Timeouts, EquivocationEvidence, ConsensusStep, is_proposer}
use cipher_x.Consensus.Vote.{Proposal}
use cipher_x.Consensus.Rounds.{start_height}
use cipher_x.Node.Solo.{drive_solo_consensus}
use cipher_x.Node.Solo.Finalizes.{
  solo, committed, is_proposer-solo, drive_solo_consensus-final, start_height-committed,
}
use cipher_x.Node.Producer.{
  Node, Draws, gossip_block, push_block, coinbase_for, build_block, after_append, apply_finalized,
  finish_drive, drive_or_wait, take_turn, tick,
}
use cipher_x.Node.Producer.Valid.{Plain, coinbase_for-some, block_for, block_for-ValidBlock}

module _ {c : Crates} where
  -- What the tick of a single validator does.
  pub record Producing (n : Node c) : Type 0 where
    pub us : Bytes
    pub commitment : Option ValidatorCommitment
    pub times : Timeouts
    pub at_height : ℕ
    pub evidence : List EquivocationEvidence
    pub at_step : ConsensusStep
    pub proposed : Option Proposal
    pub valid : Option (BlockHash × ℕ)
    pub since : ℕ
    pub alone :
        n.consensus ≡ solo c us commitment times at_height evidence at_step proposed valid since
    pub validating : n.is_sync_mode ≡ false
    pub plain : All Plain n.mempool

  apply_finalized-valid :
      (now next_height : ℕ) (b : Block) (n : Node c)
      → ValidBlock b n.chain
      → apply_finalized now next_height b n ≡ (
        record n {
          chain = extend b n.chain;
          blocks_mined = add64 n.blocks_mined 1;
          consensus = (start_height (add64 next_height 1) now n.consensus).0;
        },
        gossip_block b ∷ push_block b ∷ [],
      )
  unfolding apply_finalized
  apply_finalized-valid now next_height b n v =
      ap (after_append now next_height b n)
        (append_block-none b n.chain (ValidBlock-check_block b n.chain v))

  is_proposer-Producing : (n : Node c) → Producing n → is_proposer n.consensus ≡ true
  is_proposer-Producing n p = rw p.alone (
      is_proposer-solo c p.us p.commitment p.times p.at_height p.evidence
        (block_for n.chain (coinbase_placeholder 0) [] [] 0) p.at_step p.proposed p.valid p.since)

  our_turn : (n : Node c) → Producing n → (not n.is_sync_mode && is_proposer n.consensus) ≡ true
  our_turn n p = ground (arith, p.validating, is_proposer-Producing n p)

  -- The state of the node after the tick, with the clock at `now`.
  pub grown : ℕ → Block → (n : Node c) → Producing n → Node c
  grown now b n p = record n {
    mempool = [];
    chain = extend b n.chain;
    blocks_mined = add64 n.blocks_mined 1;
    consensus =
        solo c p.us p.commitment p.times (add64 (add64 n.chain.height 1) 1) p.evidence
          ConsensusStep.propose none none now;
  }

  grown-Producing :
      (now : ℕ) (b : Block) (n : Node c) (p : Producing n) → Producing (grown now b n p)
  unfolding grown
  grown-Producing now b n p = record {
    us = p.us;
    commitment = p.commitment;
    times = p.times;
    at_height = add64 (add64 n.chain.height 1) 1;
    evidence = p.evidence;
    at_step = ConsensusStep.propose;
    proposed = none;
    valid = none;
    since = now;
    alone = refl;
    validating = p.validating;
    plain = tt;
  }

  drive_or_wait-Producing :
      (now : ℕ) (b : Block) (n : Node c) (p : Producing n)
      → ValidBlock b n.chain
      → drive_or_wait now (add64 n.chain.height 1) b (record n { mempool = [] })
        ≡ (grown now b n p, gossip_block b ∷ push_block b ∷ [])
  unfolding drive_or_wait grown
  drive_or_wait-Producing now b n p v =
      ap (finish_drive now (add64 n.chain.height 1) (record n { mempool = [] })) (
        ap (drive_solo_consensus now b) p.alone
        ∙ drive_solo_consensus-final c p.us p.commitment p.times p.at_height p.evidence b now
            p.at_step p.proposed p.valid p.since)
      ∙ apply_finalized-valid now (add64 n.chain.height 1) b
          (record n {
            mempool = [];
            consensus = committed c p.us p.commitment p.times p.at_height p.evidence b now;
          })
          v
      ∙ ap
          (λ (e : Engine c). (
            record n {
              mempool = [];
              chain = extend b n.chain;
              blocks_mined = add64 n.blocks_mined 1;
              consensus = e;
            },
            gossip_block b ∷ push_block b ∷ [],
          ))
          (start_height-committed c p.us p.commitment p.times p.at_height p.evidence b
            (add64 (add64 n.chain.height 1) 1) now now)

  build_block-for :
      (ch : Chain c) (addr : Option StealthAddress) (txs : List Transaction) (now : ℕ)
      (draws : Draws c) (cb : Transaction) (tx_root : BlockHash)
      → coinbase_for c (add64 ch.height 1) addr draws ≡ some cb
      → compute_tx_root c (cb ∷ txs) ≡ some tx_root
      → build_block c (add64 ch.height 1) ch.tip_hash addr txs now draws
        ≡ some (block_for ch cb txs tx_root now)
  unfolding build_block block_for
  build_block-for ch addr txs now draws cb tx_root made rooted = rw (made, rooted) refl

  tick-built :
      (now : ℕ) (draws : Draws c) (n : Node c) (p : Producing n) (b : Block)
      → build_block c (add64 n.chain.height 1) n.chain.tip_hash n.reward_address n.mempool now draws
        ≡ some b
      → ValidBlock b n.chain
      → tick now draws n ≡ some (grown now b n p, gossip_block b ∷ push_block b ∷ [])
  unfolding tick
  tick-built now draws n p b built v =
      ap (λ t. take_turn t now draws n) (our_turn n p)
      ∙ ap
          (λ o. o >>= (λ block.
            some (drive_or_wait now (add64 n.chain.height 1) block (record n { mempool = [] }))))
          built
      ∙ ap some (drive_or_wait-Producing now b n p v)

-- With the laws of the group, a tick of a single validator whose queue has lite transactions only
-- extends the chain by one block, which has a coinbase and then the queue, and which goes to all
-- peers; the queue is empty after it, and the node can go on.
pub tick-extends :
    {c : Crates}
    → GroupLaws c
    → (now : ℕ) (draws : Draws c) (n : Node c) → Producing n
    → (n' : Node c) × (b : Block) × (cb : Transaction) × (tick now draws n
        ≡ some (n', gossip_block b ∷ push_block b ∷ []))
      × (append_block b n.chain ≡ (n'.chain, ok tt))
      × (b.transactions ≡ cb ∷ n.mempool)
      × (cb.tx_type ≡ coinbase)
      × (n'.chain.height ≡ add64 n.chain.height 1)
      × (n'.mempool ≡ [])
      × Producing n'
unfolding grown extend block_for
tick-extends {c} laws now draws n p =
    let (cb, made, first) =
      coinbase_for-some laws n.reward_address (add64 n.chain.height 1) draws in
    let (tx_root, _, rooted) = compute_tx_root-some c cb n.mempool in
    let b = block_for n.chain cb n.mempool tx_root now in
    let v = block_for-ValidBlock n.chain cb n.mempool tx_root now first p.plain in
    (
      grown now b n p,
      b,
      cb,
      tick-built now draws n p b
          (build_block-for n.chain n.reward_address n.mempool now draws cb tx_root made rooted) v,
      append_block-none b n.chain (ValidBlock-check_block b n.chain v),
      refl,
      first.is_cb,
      refl,
      refl,
      grown-Producing now b n p,
    )
