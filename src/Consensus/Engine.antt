-- ===== src/Consensus/Engine.antt =====
-- src/consensus/tendermint.rs: votes and timeouts.
pub mod Run
pub mod Cases
pub mod Lock
pub mod Sound
pub mod Certificate
pub mod Votes
pub mod LateVotes
use cipher_x.Prelude.{
  ℕ, ◌-◌, Bool, true, false, Option, none, some, List, [], ◌∷◌, ◌++◌, Bytes-discrete, ℕ_discrete,
  ltb, ◌==◌, if◌then◌else◌, is_yes,
}
use cipher_x.Std.HashMap.{HashMap}
use cipher_x.Std.HashMap
use cipher_x.Std.Result.{Result, ok, err}
use cipher_x.Core.Types.{BlockHash}
use cipher_x.Core.Block.{placeholder}
use cipher_x.Core.Block
use cipher_x.Crates.{Crates}
use cipher_x.Consensus.Vote.{Vote, VoteType, verify_signature}
use cipher_x.Consensus.VoteSet.{VoteSet, hash-discrete, existing}
use cipher_x.Consensus.VoteSet
use cipher_x.Consensus.State.{
  Engine, EquivocationEvidence, ConsensusStep, ConsensusError, ConsensusOutput, wrong_height,
  broadcast_vote, finalized_block, slash_evidence, pending, propose_for_round, prevote_for_round,
  precommit_for_round, make_vote,
}
use cipher_x.Consensus.Rounds.{enter_propose, start_new_round}

module _ {c : Crates} where
  -- ── Votes

  unfoldable pub locked_hash : Engine c → Option BlockHash
  locked_hash e = elim e.locked_block [ none ↦ none | some (h, _) ↦ some h ]

  unfoldable pub enter_precommit : ℕ → Bool → Engine c → Engine c × ConsensusOutput
  unfolding locked_hash
  enter_precommit now has_block e =
      let e' : Engine c = record e { step = ConsensusStep.precommit; step_start = now } in
      let vote_for = if has_block then locked_hash e' else none in
      (e', broadcast_vote (make_vote e' VoteType.precommit vote_for))

  -- `entry(round).or_insert_with(|| VoteSet::new(total_validators))`
  unfoldable pub entry : Engine c → ℕ → HashMap ℕ VoteSet → VoteSet
  entry e round sets = elim (HashMap.get ℕ_discrete round sets) [
    | none ↦ VoteSet.new e.total_validators
    | some vs ↦ vs
  ]

  -- The lock after a prevote quorum for `bh`: kept if it is on another block.
  unfoldable pub new_lock : Engine c → BlockHash → ℕ → Option (BlockHash × ℕ)
  new_lock e bh round = elim e.locked_block [
    | none ↦ some (bh, round)
    | some (h, r) ↦ if is_yes (Bytes-discrete h bh) then some (bh, round) else some (h, r)
  ]

  unfoldable pub handle_prevote : ℕ → Vote → Engine c → Engine c × ConsensusOutput
  unfolding entry enter_precommit new_lock
  handle_prevote now vote e =
      let (vs, quorum) = VoteSet.add vote (entry e vote.round e.prevote_sets) in
      let e1 : Engine c = record e {
        prevote_sets = HashMap.insert ℕ_discrete vote.round vs e.prevote_sets;
      } in
      elim quorum [
        | none ↦ (e1, pending)
        | some none ↦ enter_precommit now false e1
        | some (some bh) ↦ enter_precommit now true (record e1 {
          valid_block = some (bh, vote.round);
          locked_block = new_lock e1 bh vote.round;
        })
      ]

  -- A precommit quorum for `bh`: the block is final if it is the one proposed.
  unfoldable pub finalize : BlockHash → List Vote → Engine c → Engine c × ConsensusOutput
  finalize bh commit_votes e = elim e.current_proposal [
    | none ↦ (e, pending)
    | some p ↦
        if is_yes (Bytes-discrete (Block.hash c p.block) bh)
        then (record e { step = ConsensusStep.commit }, finalized_block p.block commit_votes)
        else (e, pending)
  ]

  unfoldable pub handle_precommit : ℕ → Vote → Engine c → Engine c × ConsensusOutput
  unfolding entry finalize start_new_round enter_propose
  handle_precommit now vote e =
      let (vs, quorum) = VoteSet.add vote (entry e vote.round e.precommit_sets) in
      let e1 : Engine c = record e {
        precommit_sets = HashMap.insert ℕ_discrete vote.round vs e.precommit_sets;
      } in
      elim quorum [
        | none ↦ (e1, pending)
        | some none ↦ enter_propose now (start_new_round now e1)
        | some (some bh) ↦ finalize bh (HashMap.values vs.votes) e1
      ]

  abbrev pub sets_of : VoteType → Engine c → HashMap ℕ VoteSet
  sets_of VoteType.prevote e = e.prevote_sets
  sets_of VoteType.precommit e = e.precommit_sets

  -- The vote of the same validator, round and type that is already held.
  unfoldable pub earlier_vote : Vote → Engine c → Option Vote
  earlier_vote v e = elim (HashMap.get ℕ_discrete v.round (sets_of v.vote_type e)) [
    | none ↦ none
    | some vs ↦ existing v.validator_nullifier vs
  ]

  unfoldable pub detect_equivocation : Vote → Engine c → Option EquivocationEvidence
  unfolding earlier_vote
  detect_equivocation v e = elim (earlier_vote v e) [
    | none ↦ none
    | some old ↦
        if is_yes (hash-discrete old.block_hash v.block_hash)
        then none
        else some (record {
          height = e.height;
          round = e.round;
          vote_type = v.vote_type;
          vote_a = old;
          vote_b = v;
        })
  ]

  unfoldable pub handle_vote : ℕ → Vote → Engine c → Engine c × ConsensusOutput
  unfolding handle_prevote handle_precommit
  handle_vote now vote e = elim vote.vote_type [
    | VoteType.prevote ↦ handle_prevote now vote e
    | VoteType.precommit ↦ handle_precommit now vote e
  ]

  unfoldable pub receive_vote :
      ℕ → Vote → Engine c → Engine c × Result ConsensusError ConsensusOutput
  unfolding detect_equivocation
  receive_vote now vote e =
      if vote.height == e.height
      then (if verify_signature c vote
          then elim (detect_equivocation vote e) [
            | some evidence ↦ (
              record e { equivocations = e.equivocations ++ evidence ∷ [] },
              ok (slash_evidence evidence),
            )
            | none ↦ let (e', out) = handle_vote now vote e in (e', ok out)
          ]
          else (e, ok pending))
      else (e, err (wrong_height e.height vote.height))

  -- ── Timeouts

  unfoldable pub check_timeout : ℕ → Engine c → Engine c × Option ConsensusOutput
  unfolding propose_for_round prevote_for_round precommit_for_round
  check_timeout now e =
      let elapsed = now - e.step_start in
      elim e.step [
        | ConsensusStep.propose ↦
            if ltb (propose_for_round e.timeouts e.round) elapsed
            then (e, some (broadcast_vote (make_vote e VoteType.prevote none)))
            else (e, none)
        | ConsensusStep.prevote ↦
            if ltb (prevote_for_round e.timeouts e.round) elapsed
            then (let (e', out) = enter_precommit now false e in (e', some out))
            else (e, none)
        | ConsensusStep.precommit ↦
            if ltb (precommit_for_round e.timeouts e.round) elapsed
            then (let (e', out) = enter_propose now (start_new_round now e) in (e', some out))
            else (e, none)
        | _ ↦ (e, none)
      ]
