-- ===== src/Consensus/Rounds.antt =====
-- src/consensus/tendermint.rs: heights, rounds and proposals. A method takes the engine, and the clock's
-- reading `now` in nanoseconds where the source calls `Instant::now`, and returns the new engine.
use cipher_x.Prelude.{
  ℕ, not, ◌||◌, Option, none, some, [], Bytes, ◌==◌, if◌then◌else◌, is_yes, add32,
}
use cipher_x.Std.HashMap.{HashMap}
use cipher_x.Std.HashMap
use cipher_x.Std.Result.{Result, ok, err}
use cipher_x.Core.Types.{Block, BlockHash}
use cipher_x.Core.Block.{placeholder}
use cipher_x.Core.Block
use cipher_x.Crates.{Crates}
use cipher_x.Consensus.Vote.{VoteType, Proposal, proposal_sign_bytes, verify_proposal}
use cipher_x.Consensus.VoteSet.{hash-discrete}
use cipher_x.Consensus.State.{
  Engine, ConsensusStep, ConsensusError, ConsensusOutput, invalid_proposal, unauthorized_proposer,
  broadcast_vote, broadcast_proposal, pending, proposer_for_round, is_proposer, make_vote, or_zeros,
  or_placeholder,
}

module _ {c : Crates} where
  -- ── Heights and rounds

  unfoldable pub enter_propose : ℕ → Engine c → Engine c × ConsensusOutput
  enter_propose now e = (record e { step = ConsensusStep.propose; step_start = now }, pending)

  unfoldable pub start_height : ℕ → ℕ → Engine c → Engine c × ConsensusOutput
  unfolding enter_propose
  start_height height now e = enter_propose now (record e {
    height = height;
    round = 0;
    current_proposal = none;
    locked_block = none;
    valid_block = none;
    prevote_sets = HashMap.empty;
    precommit_sets = HashMap.empty;
  })

  unfoldable pub start_new_round : ℕ → Engine c → Engine c
  start_new_round now e = record e {
    round = add32 e.round 1;
    current_proposal = none;
    step = ConsensusStep.propose;
    step_start = now;
  }

  -- ── Proposals

  unsigned_proposal : Engine c → Bytes → Block → Proposal
  unsigned_proposal e nullifier block = record {
    height = e.height;
    round = e.round;
    block = block;
    proposer_nullifier = nullifier;
    signature = [];
    validator_proof = or_placeholder e.our_commitment;
  }

  sign_proposal : Engine c → Proposal → Proposal
  sign_proposal e p = elim e.signing_key [
    | none ↦ p
    | some sk ↦ record p { signature = c.ed25519_sign sk (proposal_sign_bytes c p) }
  ]

  unfoldable pub submit_proposal :
      Block → Engine c → Engine c × Result ConsensusError ConsensusOutput
  unfolding is_proposer unsigned_proposal sign_proposal
  submit_proposal block e =
      if is_proposer e
      then (let p = sign_proposal e (unsigned_proposal e (or_zeros e.our_nullifier) block) in
          (record e { current_proposal = some p }, ok (broadcast_proposal p)))
      else (e, err unauthorized_proposer)

  -- `decide_prevote`: the locked block if there is one, or the block of the proposal.
  unfoldable pub decide_prevote : Engine c → Option BlockHash
  decide_prevote e = elim e.locked_block [
    | some (locked, _) ↦ some locked
    | none ↦ elim e.current_proposal [ none ↦ none | some p ↦ some (Block.hash c p.block) ]
  ]

  unfoldable pub enter_prevote : ℕ → Engine c → Engine c × ConsensusOutput
  unfolding decide_prevote
  enter_prevote now e =
      let e' : Engine c = record e { step = ConsensusStep.prevote; step_start = now } in
      (e', broadcast_vote (make_vote e' VoteType.prevote (decide_prevote e')))

  unfoldable pub receive_proposal :
      ℕ → Proposal → Engine c → Engine c × Result ConsensusError ConsensusOutput
  unfolding proposer_for_round enter_prevote
  receive_proposal now p e =
      if not (p.height == e.height) || not (p.round == e.round)
      then (e, err (invalid_proposal p.height p.round))
      else if is_yes (hash-discrete (proposer_for_round e.round e) (some p.proposer_nullifier))
      then (if verify_proposal c p
          then (let (e', out) = enter_prevote now (record e { current_proposal = some p }) in
              (e', ok out))
          else (e, err (invalid_proposal p.height p.round)))
      else (e, err unauthorized_proposer)
