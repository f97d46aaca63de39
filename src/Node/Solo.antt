-- ===== src/Node/Solo.antt =====
-- `drive_solo_consensus` of src/main.rs: the engine of a node that is the only validator, from a block
-- to its finalization, at the clock's reading `now`.
pub mod Finalizes
use cipher_x.Prelude.{ℕ, Option, none, some, []}
use cipher_x.Std.Result.{Result, ok, err}
use cipher_x.Core.Types.{Block}
use cipher_x.Crates.{Crates}
use cipher_x.Consensus.Vote.{Vote, Proposal}
use cipher_x.Consensus.State.{
  Engine, ConsensusError, ConsensusOutput, broadcast_vote, broadcast_proposal, finalized_block,
}
use cipher_x.Consensus.Rounds.{submit_proposal, receive_proposal}
use cipher_x.Consensus.Engine.{receive_vote}

-- The patterns `Ok(ConsensusOutput::..)`.
abbrev pub proposal_of : Result ConsensusError ConsensusOutput → Option Proposal
proposal_of (ok (broadcast_proposal p)) = some p
proposal_of _ = none

abbrev pub vote_of : Result ConsensusError ConsensusOutput → Option Vote
vote_of (ok (broadcast_vote v)) = some v
vote_of _ = none

abbrev pub block_of : Result ConsensusError ConsensusOutput → Option Block
block_of (ok (finalized_block block votes)) = some block
block_of _ = none

module _ {c : Crates} where
  unfoldable pub commit_with : ℕ → Option Vote → Engine c → Engine c × Option Block
  commit_with now none e = (e, none)
  commit_with now (some precommit) e =
      let (e', out) = receive_vote now precommit e in (e', block_of out)

  unfoldable pub precommit_with : ℕ → Option Vote → Engine c → Engine c × Option Block
  unfolding commit_with
  precommit_with now none e = (e, none)
  precommit_with now (some prevote) e =
      let (e', out) = receive_vote now prevote e in commit_with now (vote_of out) e'

  unfoldable pub prevote_with : ℕ → Option Proposal → Engine c → Engine c × Option Block
  unfolding precommit_with
  prevote_with now none e = (e, none)
  prevote_with now (some proposal) e =
      let (e', out) = receive_proposal now proposal e in precommit_with now (vote_of out) e'

  unfoldable pub drive_solo_consensus : ℕ → Block → Engine c → Engine c × Option Block
  unfolding prevote_with
  drive_solo_consensus now block e =
      let (e', out) = submit_proposal block e in prevote_with now (proposal_of out) e'
