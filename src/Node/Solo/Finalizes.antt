-- ===== src/Node/Solo/Finalizes.antt =====
-- A single validator finalizes its own blocks, src/main.rs with src/consensus/tendermint.rs.
use cipher_x.Prelude.{
  ℕ, ◌%◌, ◌≡◌, refl, true, Option, none, some, List, [], ◌∷◌, Bytes, Bytes-discrete, get_elem?,
  ◌==◌, is_yes_of, arith, add64,
}
use cipher_x.Std.HashMap.{HashMap}
use cipher_x.Std.HashMap
use cipher_x.Std.Result.{ok}
use cipher_x.Core.Types.{Block, BlockHash, ValidatorCommitment}
use cipher_x.Core.Block
use cipher_x.Crates.{Crates}
use cipher_x.Consensus.Vote.{Vote, VoteType, Proposal, verify_proposal, verify_signature}
use cipher_x.Consensus.VoteSet.{hash-discrete, VoteSet, quorum_of}
use cipher_x.Consensus.VoteSet
use cipher_x.Consensus.State.{
  Engine, Timeouts, EquivocationEvidence, or_placeholder, pubkey_of, broadcast_proposal,
  broadcast_vote, finalized_block, ConsensusStep, is_proposer, make_vote, default_timeouts,
}
use cipher_x.Consensus.State
use cipher_x.Consensus.Rounds.{submit_proposal, receive_proposal, start_height}
use cipher_x.Consensus.Engine.{
  receive_vote, handle_vote, handle_prevote, handle_precommit, detect_equivocation,
}
use cipher_x.Node.Solo.{drive_solo_consensus}

eqb_refl : (n : ℕ) → (n == n) ≡ true
eqb_refl n = ground arith

module _ (c : Crates) (n : Bytes) (commitment : Option ValidatorCommitment) (times : Timeouts) where
  -- The engine of the single validator `n` that has no signing key, with nothing locked and no
  -- precommits, in round 0.
  pub solo :
      ℕ
      → List EquivocationEvidence
      → ConsensusStep
      → Option Proposal
      → Option (BlockHash × ℕ)
      → ℕ
      → Engine c
  solo height equivocations step proposal valid start = record {
    height = height;
    round = 0;
    step = step;
    total_validators = 1;
    our_nullifier = some n;
    our_commitment = commitment;
    signing_key = none;
    current_proposal = proposal;
    locked_block = none;
    valid_block = valid;
    prevote_sets = HashMap.empty;
    precommit_sets = HashMap.empty;
    validator_nullifiers = n ∷ [];
    equivocations = equivocations;
    timeouts = times;
    step_start = start;
  }

  proposal_for : ℕ → Block → Proposal
  proposal_for height block = record {
    height = height;
    round = 0;
    block = block;
    proposer_nullifier = n;
    signature = [];
    validator_proof = or_placeholder commitment;
  }

  vote_for : ℕ → VoteType → Block → Vote
  vote_for height vote_type block = record {
    vote_type = vote_type;
    height = height;
    round = 0;
    block_hash = some (Block.hash c block);
    validator_nullifier = n;
    validator_pubkey = pubkey_of commitment;
    signature = [];
    voting_power = 1;
  }

  module _ (height : ℕ) (eqs : List EquivocationEvidence) (block : Block) where
    turn : (round : ℕ) → get_elem? (n ∷ []) (add64 height round % 1) ≡ some n
    turn round = let e : add64 height round % 1 ≡ 0 = omega arith in rw e refl

    pub is_proposer-solo :
        (step : ConsensusStep) (old : Option Proposal) (valid : Option (BlockHash × ℕ)) (start : ℕ)
        → is_proposer (solo height eqs step old valid start) ≡ true
    unfolding is_proposer solo
    is_proposer-solo step old valid start = rw (turn 0, is_yes_of (Bytes-discrete n n) refl) refl

    submit :
        (step : ConsensusStep) (old : Option Proposal) (valid : Option (BlockHash × ℕ)) (start : ℕ)
        → submit_proposal block (solo height eqs step old valid start) ≡ (
          solo height eqs step (some (proposal_for height block)) valid start,
          ok (broadcast_proposal (proposal_for height block)),
        )
    unfolding submit_proposal solo proposal_for
    submit step old valid start = rw (turn 0, is_yes_of (Bytes-discrete n n) refl) refl

    receive :
        (now : ℕ) (step : ConsensusStep) (old : Option Proposal) (valid : Option (BlockHash × ℕ))
        (start : ℕ)
        → receive_proposal now (proposal_for height block) (solo height eqs step old valid start)
          ≡ (
            solo height eqs ConsensusStep.prevote (some (proposal_for height block)) valid now,
            ok (broadcast_vote (vote_for height VoteType.prevote block)),
          )
    unfolding receive_proposal solo proposal_for vote_for make_vote verify_proposal
    receive now step old valid start =
        rw
          (
            eqb_refl height,
            receive_proposal,
            turn 0,
            is_yes_of (hash-discrete (some n) (some n)) refl,
          )
          refl

    -- The set with one vote.
    one_vote : VoteType → VoteSet
    one_vote vote_type =
        let v = vote_for height vote_type block in
        record {
          votes = record { entries = (n, v) ∷ [] };
          quorum = 1;
          power_by_block = record { entries = (v.block_hash, 1) ∷ [] };
        }

    hash_of : BlockHash
    hash_of = Block.hash c block

    cast_prevote :
        (now : ℕ) (proposal : Option Proposal) (valid : Option (BlockHash × ℕ))
        → receive_vote now
            (vote_for height VoteType.prevote block)
            (solo height eqs ConsensusStep.prevote proposal valid now)
          ≡ (
            record (solo height eqs ConsensusStep.precommit proposal (some (hash_of, 0)) now) {
              locked_block = some (hash_of, 0);
              prevote_sets = record { entries = (0, one_vote VoteType.prevote) ∷ [] };
            },
            ok (broadcast_vote (vote_for height VoteType.precommit block)),
          )
    unfolding receive_vote solo vote_for make_vote verify_signature handle_vote handle_prevote
        detect_equivocation HashMap.get HashMap.insert VoteSet.add VoteSet.new one_vote hash_of
    cast_prevote now proposal valid = rw (eqb_refl height, receive_vote) refl

    -- The engine when the block is final.
    pub committed : ℕ → Engine c
    unfolding solo
    committed now =
        record (solo height eqs ConsensusStep.commit (some (proposal_for height block))
          (some (hash_of, 0)) now) {
            locked_block = some (hash_of, 0);
            prevote_sets = record { entries = (0, one_vote VoteType.prevote) ∷ [] };
            precommit_sets = record { entries = (0, one_vote VoteType.precommit) ∷ [] };
          }

    cast_precommit :
        (now : ℕ)
        → receive_vote now
            (vote_for height VoteType.precommit block)
            (record (solo height eqs ConsensusStep.precommit
              (some (proposal_for height block))
              (some (hash_of, 0))
              now) {
                locked_block = some (hash_of, 0);
                prevote_sets = record { entries = (0, one_vote VoteType.prevote) ∷ [] };
              })
          ≡ (
            committed now,
            ok (finalized_block block (vote_for height VoteType.precommit block ∷ [])),
          )
    unfolding receive_vote solo vote_for proposal_for make_vote verify_signature handle_vote
        handle_precommit detect_equivocation HashMap.get HashMap.insert HashMap.values VoteSet.add
        VoteSet.new hash_of one_vote committed
    cast_precommit now =
        rw (eqb_refl height, receive_vote, is_yes_of (Bytes-discrete hash_of hash_of) refl) refl

    -- The single validator finalizes the block that it is driven with.
    pub drive_solo_consensus-final :
        (now : ℕ) (step : ConsensusStep) (old : Option Proposal) (valid : Option (BlockHash × ℕ))
        (start : ℕ)
        → drive_solo_consensus now block (solo height eqs step old valid start)
          ≡ (committed now, some block)
    unfolding drive_solo_consensus
    drive_solo_consensus-final now step old valid start =
        rw
          (
            submit step old valid start,
            receive now step (some (proposal_for height block)) valid start,
            cast_prevote now (some (proposal_for height block)) valid,
            cast_precommit now,
          )
          refl

    -- After that, the next height starts with an engine that can be driven again.
    pub start_height-committed :
        (next now later : ℕ)
        → (start_height next later (committed now)).0
          ≡ solo next eqs ConsensusStep.propose none none later
    unfolding start_height committed solo
    start_height-committed next now later = refl

-- The engine that the node starts with.
pub start_height-new :
    (c : Crates) (n : Bytes) (commitment : Option ValidatorCommitment) (made now : ℕ)
    → (start_height 1 now (State.new {c = c} 1 1 (n ∷ []) (some n) commitment made)).0
      ≡ solo c n commitment default_timeouts 1 [] ConsensusStep.propose none none now
unfolding start_height solo State.new
start_height-new c n commitment made now = refl
