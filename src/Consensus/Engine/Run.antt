-- ===== src/Consensus/Engine/Run.antt =====
-- Runs of the engine within one height: any sequence of the calls that the node makes between two
-- calls of `start_height`, in any order and at any times.
use cipher_x.Prelude.{ℕ, Option, none, some, List, [], ◌∷◌, ◌++◌}
use cipher_x.Std.Result.{Result, ok, err}
use cipher_x.Core.Types.{Block}
use cipher_x.Crates.{Crates}
use cipher_x.Consensus.Vote.{Vote, Proposal}
use cipher_x.Consensus.State.{Engine, ConsensusOutput, ConsensusError}
use cipher_x.Consensus.Rounds.{submit_proposal, receive_proposal}
use cipher_x.Consensus.Engine.{receive_vote, check_timeout}

pub data Event : Type 0 where
  submits : Block → Event
  receives : Proposal → Event
  votes : Vote → Event
  ticks : Event

-- What the node sends out: nothing on an error.
abbrev pub outputs : Result ConsensusError ConsensusOutput → List ConsensusOutput
outputs (ok out) = out ∷ []
outputs (err e) = []

abbrev pub timeout_outputs : Option ConsensusOutput → List ConsensusOutput
timeout_outputs none = []
timeout_outputs (some out) = out ∷ []

module _ {c : Crates} where
  unfoldable pub step : ℕ → Event → Engine c → Engine c × List ConsensusOutput
  step now (submits b) e = let (e', r) = submit_proposal b e in (e', outputs r)
  step now (receives p) e = let (e', r) = receive_proposal now p e in (e', outputs r)
  step now (votes v) e = let (e', r) = receive_vote now v e in (e', outputs r)
  step now ticks e = let (e', r) = check_timeout now e in (e', timeout_outputs r)

  unfoldable pub run : List (ℕ × Event) → Engine c → Engine c × List ConsensusOutput
  run [] e = (e, [])
  run ((now, ev) ∷ rest) e =
      let (e1, out) = step now ev e in let (e2, outs) = run rest e1 in (e2, out ++ outs)
