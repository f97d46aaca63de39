-- ===== src/Tests/Consensus.antt =====
-- Votes and engines of a small network.
use cipher_x.Prelude.{
  ℕ, ℕ_discrete, ap, ◌≢◌, ◌+◌, ◌≤◌, ◌<◌, ◌≡◌, ◌↔◌, refl, Option, none, some, List, [], ◌∷◌, arith,
  All, Bytes-discrete,
}
use cipher_x.Std.HashMap
use cipher_x.Std.Result.{ok}
use cipher_x.Core.Types.{Block, BlockHash}
use cipher_x.Core.Block.{genesis, placeholder}
use cipher_x.Core.Block
use cipher_x.Tests.Toy.{toy, head_or_zero}
use cipher_x.Consensus.Vote.{Vote, VoteType, Proposal, verify_signature}
use cipher_x.Consensus.VoteSet.{VoteSet, quorum_of, existing, power_of, hash-discrete}
use cipher_x.Consensus.VoteSet
use cipher_x.Consensus.VoteSet.Tally.{new-IsTally, votes_of, total_power, power_for}
use cipher_x.Consensus.VoteSet.Quorum.{add_all, quorum_agreement, add-eq-some_iff}
use cipher_x.Consensus.State.{
  Engine, ConsensusOutput, ConsensusStep, finalized_block, slash_evidence, pending,
  proposer_for_round,
}
use cipher_x.Consensus.State
use cipher_x.Consensus.State.Proposer.{every_validator_proposes}
use cipher_x.Consensus.Rounds.{start_height}
use cipher_x.Consensus.Engine.{receive_vote, locked_hash}
use cipher_x.Consensus.Engine.Run.{Event, receives, votes, ticks, run}
use cipher_x.Consensus.Engine.Lock.{run_follows_lock, precommit_hash}
use cipher_x.Consensus.Engine.Certificate.{run-Justified, Justified}
use cipher_x.Consensus.Engine.Votes.{lone_vote_finalizes}
use cipher_x.Consensus.Engine.LateVotes.{NilVote, receive_all, late_nil_votes_advance}

-- A precommit vote without a signature.
abbrev vote_of : ℕ → Option BlockHash → ℕ → Vote
vote_of validator bh power = record {
  vote_type = VoteType.precommit;
  height = 1;
  round = 0;
  block_hash = bh;
  validator_nullifier = validator ∷ [];
  validator_pubkey = [];
  signature = [];
  voting_power = power;
}

abbrev hash_a : Option BlockHash
hash_a = some (7 ∷ [])

abbrev two_votes : List Vote
two_votes = vote_of 1 hash_a 1 ∷ vote_of 2 hash_a 1 ∷ []

quorum_agreement_example : hash_a ≡ hash_a
unfolding add_all VoteSet.add VoteSet.record_vote VoteSet.new existing power_of HashMap.get
    HashMap.insert HashMap.values hash-discrete Bytes-discrete ℕ_discrete total_power
quorum_agreement_example =
    quorum_agreement 3 two_votes [] (vote_of 3 hash_a 1) (vote_of 4 hash_a 0) hash_a hash_a
      (omega arith) refl refl (omega arith)

add-eq-some_iff_example : ((VoteSet.add (vote_of 1 hash_a 1) (VoteSet.new 1)).1 ≡ some hash_a) ↔ (
    (existing (1 ∷ []) (VoteSet.new 1) ≡ none)
    × (hash_a ≡ hash_a)
    × ((VoteSet.new 1).quorum ≤ power_for hash_a (votes_of (VoteSet.new 1)) + 1))
unfolding VoteSet.new HashMap.values total_power
add-eq-some_iff_example =
    add-eq-some_iff (vote_of 1 hash_a 1) (VoteSet.new 1) hash_a (new-IsTally 1) (omega arith)

abbrev engine : Engine toy
engine = State.new 1 2 ((1 ∷ []) ∷ (2 ∷ []) ∷ []) (some (1 ∷ [])) none 0

abbrev block : Block
block = genesis 0

abbrev proposal : Proposal
proposal = record {
  height = 1;
  round = 0;
  block = block;
  proposer_nullifier = 2 ∷ [];
  signature = [];
  validator_proof = placeholder;
}

abbrev events : List (ℕ × Event)
events =
    (5, receives proposal)
    ∷ (6, votes (vote_of 1 (some (Block.hash toy block)) 1))
    ∷ (7, votes (vote_of 2 (some (Block.hash toy block)) 1))
    ∷ (8, ticks)
    ∷ []

run_follows_lock_example :
    ((h : BlockHash) → locked_hash engine ≡ some h → locked_hash (run events engine).0 ≡ some h)
    × All
        (λ out.
          (h : BlockHash)
          → precommit_hash out ≡ some h
          → locked_hash (run events engine).0 ≡ some h)
        (run events engine).1
run_follows_lock_example = run_follows_lock events engine

run-Justified_example : All (Justified toy 1 2) (run events (start_height 1 0 engine).0).1
unfolding State.new
run-Justified_example = run-Justified 1 0 engine events

every_validator_proposes_example : (r : ℕ) × (r < 2) × (proposer_for_round r engine ≡ some (2 ∷ []))
unfolding State.new
every_validator_proposes_example = every_validator_proposes engine 1 (omega arith) (omega arith)

abbrev proposed : Engine toy
proposed = record engine { current_proposal = some proposal }

lone_vote_finalizes_example :
    (receive_vote 9 (vote_of 9 (some (Block.hash toy block)) 2) proposed).1
    ≡ ok (finalized_block block (vote_of 9 (some (Block.hash toy block)) 2 ∷ []))
unfolding State.new HashMap.get
lone_vote_finalizes_example =
    lone_vote_finalizes 9 (vote_of 9 (some (Block.hash toy block)) 2) proposal proposed refl refl
      refl refl refl refl (omega arith) (omega arith)

-- An engine in round 3 without votes for round 0.
abbrev moved_on : Engine toy
moved_on = record engine { round = 3 }

abbrev late_votes : List (ℕ × Vote)
late_votes = (9, vote_of 1 none 1) ∷ (10, vote_of 2 none 1) ∷ (11, vote_of 3 none 1) ∷ []

late_vote : (n : ℕ) → NilVote toy 1 0 (vote_of n none 1)
unfolding verify_signature
late_vote n = record {
  precommits = refl;
  at_height = refl;
  at_round = refl;
  for_nil = refl;
  verified = refl;
  one_power = refl;
}

different : (m n : ℕ) → m ≢ n → m ∷ [] ≢ n ∷ []
different m n h e = h (ap head_or_zero e)

-- The quorum of two validators is 2: the second and the third vote bring a round each.
late_nil_votes_advance_example : (receive_all late_votes moved_on).round ≡ 5
unfolding State.new HashMap.get
late_nil_votes_advance_example =
    late_nil_votes_advance late_votes moved_on 0 refl
      (late_vote 1, (late_vote 2, (late_vote 3, tt)))
      (
        (different 1 2 (λ e. omega arith), (different 1 3 (λ e. omega arith), tt)),
        ((different 2 3 (λ e. omega arith), tt), (tt, tt)),
      )
      (omega arith) (omega arith)
