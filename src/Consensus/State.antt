-- ===== src/Consensus/State.antt =====
-- src/consensus/tendermint.rs: the state of the engine, proposer selection and the votes it signs.
pub mod Proposer
use cipher_x.Prelude.{
  ℕ, ◌+◌, ◌*◌, ◌%◌, Bool, false, Option, none, some, List, [], Bytes, Bytes-discrete, length,
  get_elem?, replicate, ◌==◌, if◌then◌else◌, is_yes, add64,
}
use cipher_x.Std.HashMap.{HashMap}
use cipher_x.Std.HashMap
use cipher_x.Core.Types.{Block, BlockHash, ValidatorCommitment}
use cipher_x.Core.Block.{placeholder}
use cipher_x.Crates.{Crates}
use cipher_x.Consensus.Vote.{Vote, VoteType, Proposal, sign_bytes}
use cipher_x.Consensus.VoteSet.{VoteSet}

-- `Duration::from_millis`
abbrev pub millis : ℕ → ℕ
millis n = n * 1_000_000

pub record Timeouts : Type 0 where
  pub propose : ℕ
  pub prevote : ℕ
  pub precommit : ℕ
  pub round_delta : ℕ

unfoldable pub default_timeouts : Timeouts
default_timeouts = record {
  propose = millis 200;
  prevote = millis 100;
  precommit = millis 100;
  round_delta = millis 50;
}

unfoldable pub propose_for_round : Timeouts → ℕ → ℕ
propose_for_round t round = t.propose + t.round_delta * round

unfoldable pub prevote_for_round : Timeouts → ℕ → ℕ
prevote_for_round t round = t.prevote + t.round_delta * round

unfoldable pub precommit_for_round : Timeouts → ℕ → ℕ
precommit_for_round t round = t.precommit + t.round_delta * round

pub record EquivocationEvidence : Type 0 where
  pub height : ℕ
  pub round : ℕ
  pub vote_type : VoteType
  pub vote_a : Vote
  pub vote_b : Vote

pub data ConsensusStep : Type 0 where
  new_height propose prevote precommit commit : ConsensusStep

pub data ConsensusError : Type 0 where
  invalid_proposal : ℕ → ℕ → ConsensusError
  wrong_height : ℕ → ℕ → ConsensusError
  unauthorized_proposer : ConsensusError

pub data ConsensusOutput : Type 0 where
  broadcast_vote : Vote → ConsensusOutput
  broadcast_proposal : Proposal → ConsensusOutput
  finalized_block : Block → List Vote → ConsensusOutput
  slash_evidence : EquivocationEvidence → ConsensusOutput
  pending : ConsensusOutput

pub record Engine (c : Crates) : Type 0 where
  pub height : ℕ
  pub round : ℕ
  pub step : ConsensusStep
  pub total_validators : ℕ
  pub our_nullifier : Option Bytes
  pub our_commitment : Option ValidatorCommitment
  pub signing_key : Option c.SigningKey
  pub current_proposal : Option Proposal
  pub locked_block : Option (BlockHash × ℕ)
  pub valid_block : Option (BlockHash × ℕ)
  pub prevote_sets : HashMap ℕ VoteSet
  pub precommit_sets : HashMap ℕ VoteSet
  pub validator_nullifiers : List Bytes
  pub equivocations : List EquivocationEvidence
  pub timeouts : Timeouts
  pub step_start : ℕ

abbrev pub same : Option Bytes → Option Bytes → Bool
same (some a) (some b) = is_yes (Bytes-discrete a b)
same _ _ = false

abbrev pub or_zeros : Option Bytes → Bytes
or_zeros none = replicate 32 0
or_zeros (some b) = b

abbrev pub pubkey_of : Option ValidatorCommitment → Bytes
pubkey_of none = replicate 32 0
pubkey_of (some v) = v.public_key

abbrev pub or_placeholder : Option ValidatorCommitment → ValidatorCommitment
or_placeholder none = placeholder
or_placeholder (some v) = v

module _ {c : Crates} where
  -- ── Proposer selection

  -- The index is below the length where the list is not empty.
  unfoldable pub proposer_for_round : ℕ → Engine c → Option Bytes
  proposer_for_round round e =
      if length e.validator_nullifiers == 0
      then none
      else get_elem? e.validator_nullifiers (add64 e.height round % length e.validator_nullifiers)

  unfoldable pub is_proposer : Engine c → Bool
  unfolding proposer_for_round
  is_proposer e = same e.our_nullifier (proposer_for_round e.round e)

  -- ── Helpers

  unsigned_vote : Engine c → VoteType → Option BlockHash → Vote
  unsigned_vote e vote_type block_hash = record {
    vote_type = vote_type;
    height = e.height;
    round = e.round;
    block_hash = block_hash;
    validator_nullifier = or_zeros e.our_nullifier;
    validator_pubkey = pubkey_of e.our_commitment;
    signature = [];
    voting_power = 1;
  }

  unfoldable pub make_vote : Engine c → VoteType → Option BlockHash → Vote
  unfolding unsigned_vote
  make_vote e vote_type block_hash =
      let vote = unsigned_vote e vote_type block_hash in
      elim e.signing_key [
        | none ↦ vote
        | some sk ↦ record vote { signature = c.ed25519_sign sk (sign_bytes vote) }
      ]

unfoldable pub new :
    {c : Crates} → ℕ → ℕ → List Bytes → Option Bytes → Option ValidatorCommitment → ℕ → Engine c
new height total nullifiers our_nullifier our_commitment now = record {
  height = height;
  round = 0;
  step = ConsensusStep.new_height;
  total_validators = total;
  our_nullifier = our_nullifier;
  our_commitment = our_commitment;
  signing_key = none;
  current_proposal = none;
  locked_block = none;
  valid_block = none;
  prevote_sets = HashMap.empty;
  precommit_sets = HashMap.empty;
  validator_nullifiers = nullifiers;
  equivocations = [];
  timeouts = default_timeouts;
  step_start = now;
}

unfoldable pub with_signing_key : {c : Crates} → c.SigningKey → Engine c → Engine c
with_signing_key sk e = record e { signing_key = some sk }
