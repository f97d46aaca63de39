-- ===== src/Consensus/Engine/Lock.antt =====
-- src/consensus/tendermint.rs: the lock of the engine within a height.
use cipher_x.Prelude.{
  ℕ, ◌≡◌, refl, Bool, true, false, Option, none, some, List, [], ◌∷◌, arith, All, All-append,
  All-map,
}
use cipher_x.Core.Types.{Block, BlockHash}
use cipher_x.Crates.{Crates}
use cipher_x.Consensus.Vote.{Vote, VoteType, Proposal}
use cipher_x.Consensus.State.{Engine, ConsensusOutput, broadcast_vote, make_vote}
use cipher_x.Consensus.Rounds.{submit_proposal, receive_proposal, enter_propose, start_new_round}
use cipher_x.Consensus.Engine.{
  receive_vote, check_timeout, locked_hash, handle_prevote, handle_precommit, handle_vote,
  enter_precommit, new_lock,
}
use cipher_x.Consensus.Engine.Cases.{
  handle_prevote_cases, receive_vote_cases, with_prevote, with_quorum,
}
use cipher_x.Consensus.Engine.Run.{
  Event, submits, receives, votes, ticks, step, run, outputs, timeout_outputs,
}

-- The block that an output precommits, if it is such a vote.
abbrev pub precommit_hash : ConsensusOutput → Option BlockHash
precommit_hash (broadcast_vote v) = elim v.vote_type [
  | VoteType.prevote ↦ none
  | VoteType.precommit ↦ v.block_hash
]
precommit_hash _ = none

-- Every output that precommits a block precommits the one that `lock` names.
abbrev pub FollowsLock : Option BlockHash → List ConsensusOutput → Type 0
FollowsLock lock outs =
    All (λ out. (h : BlockHash) → precommit_hash out ≡ some h → lock ≡ some h) outs

-- What one step does to the lock: a lock stays on its block, and precommits follow it.
abbrev KeepsLock : {c : Crates} → Engine c → Engine c → List ConsensusOutput → Type 0
KeepsLock e e' outs =
    ((h : BlockHash) → locked_hash e ≡ some h → locked_hash e' ≡ some h)
    × FollowsLock (locked_hash e') outs

module _ {c : Crates} where
  lock-new_lock :
      (e : Engine c) (bh : BlockHash) (round : ℕ) (h : BlockHash)
      → locked_hash e ≡ some h
      → locked_hash (record e { locked_block = new_lock e bh round }) ≡ some h
  unfolding locked_hash new_lock
  lock-new_lock e bh round h p = ground arith

  enter_precommit-FollowsLock :
      (now : ℕ) (b : Bool) (e : Engine c) (h : BlockHash)
      → precommit_hash (enter_precommit now b e).1 ≡ some h
      → locked_hash (enter_precommit now b e).0 ≡ some h
  unfolding enter_precommit make_vote
  enter_precommit-FollowsLock now b e h p = ground arith

  enter_precommit-KeepsLock :
      (now : ℕ) (b : Bool) (e : Engine c)
      → KeepsLock e (enter_precommit now b e).0 ((enter_precommit now b e).1 ∷ [])
  unfolding enter_precommit locked_hash
  enter_precommit-KeepsLock now b e = ((λ h p. p), (enter_precommit-FollowsLock now b e, tt))

  handle_prevote-KeepsLock :
      (now : ℕ) (v : Vote) (e : Engine c)
      → KeepsLock e (handle_prevote now v e).0 ((handle_prevote now v e).1 ∷ [])
  unfolding locked_hash
  handle_prevote-KeepsLock now v e =
      handle_prevote_cases (λ e' out. KeepsLock e e' (out ∷ [])) now v e
        (λ h. ((λ a p. p), ((λ a p. cc), tt)))
        (λ h. enter_precommit-KeepsLock now false (with_prevote v e))
        (λ bh h.
          let (keep, follow) = enter_precommit-KeepsLock now true (with_quorum v e bh) in
          ((λ a p. keep a (lock-new_lock (with_prevote v e) bh v.round a p)), follow))

  handle_precommit-KeepsLock :
      (now : ℕ) (v : Vote) (e : Engine c)
      → KeepsLock e (handle_precommit now v e).0 ((handle_precommit now v e).1 ∷ [])
  unfolding handle_precommit locked_hash
  handle_precommit-KeepsLock now v e = ((λ h p. ground arith), ((λ h p. ground arith), tt))

  handle_vote-KeepsLock :
      (now : ℕ) (v : Vote) (t : VoteType) (e : Engine c)
      → v.vote_type ≡ t
      → KeepsLock e (handle_vote now v e).0 ((handle_vote now v e).1 ∷ [])
  unfolding handle_vote
  handle_vote-KeepsLock now v VoteType.prevote e t =
      rw (t, handle_vote) (handle_prevote-KeepsLock now v e)
  handle_vote-KeepsLock now v VoteType.precommit e t =
      rw (t, handle_vote) (handle_precommit-KeepsLock now v e)

  receive_vote-KeepsLock :
      (now : ℕ) (v : Vote) (e : Engine c)
      → KeepsLock e (receive_vote now v e).0 (outputs (receive_vote now v e).1)
  unfolding locked_hash
  receive_vote-KeepsLock now v e =
      receive_vote_cases (λ e' r. KeepsLock e e' (outputs r)) now v e (λ h. ((λ a p. p), tt))
        (λ h. ((λ a p. p), ((λ a p. cc), tt))) (λ ev h s d. ((λ a p. p), ((λ a p. cc), tt)))
        (λ h s d. handle_vote-KeepsLock now v v.vote_type e refl)

  receive_proposal-KeepsLock :
      (now : ℕ) (p : Proposal) (e : Engine c)
      → KeepsLock e (receive_proposal now p e).0 (outputs (receive_proposal now p e).1)
  unfolding receive_proposal locked_hash make_vote
  receive_proposal-KeepsLock now p e = ground arith

  submit_proposal-KeepsLock :
      (b : Block) (e : Engine c)
      → KeepsLock e (submit_proposal b e).0 (outputs (submit_proposal b e).1)
  unfolding submit_proposal locked_hash
  submit_proposal-KeepsLock b e = ground arith

  check_timeout-KeepsLock :
      (now : ℕ) (e : Engine c)
      → KeepsLock e (check_timeout now e).0 (timeout_outputs (check_timeout now e).1)
  unfolding check_timeout locked_hash make_vote enter_precommit enter_propose start_new_round
  check_timeout-KeepsLock now e = ground arith

  step-KeepsLock :
      (now : ℕ) (ev : Event) (e : Engine c) → KeepsLock e (step now ev e).0 (step now ev e).1
  unfolding step
  step-KeepsLock now (submits b) e = submit_proposal-KeepsLock b e
  step-KeepsLock now (receives p) e = receive_proposal-KeepsLock now p e
  step-KeepsLock now (votes v) e = receive_vote-KeepsLock now v e
  step-KeepsLock now ticks e = check_timeout-KeepsLock now e

  run-KeepsLock : (l : List (ℕ × Event)) (e : Engine c) → KeepsLock e (run l e).0 (run l e).1
  unfolding run
  run-KeepsLock [] e = ((λ h p. p), tt)
  run-KeepsLock ((now, ev) ∷ l) e =
      let (keep, follow) = step-KeepsLock now ev e in
      let (keep', follow') = run-KeepsLock l (step now ev e).0 in
      (
        (λ h p. keep' h (keep h p)),
        All-append _ (step now ev e).1 (run l (step now ev e).0).1
            (All-map (λ out f h p. keep' h (f h p)) (step now ev e).1 follow) follow',
      )

  -- Over any run within a height, whatever proposals, votes and timeouts come in: once the engine is
  -- locked on a block it stays locked on that block, and every precommit vote for a block that it
  -- broadcasts is for the block that it is locked on at the end of the run.
  pub run_follows_lock :
      (l : List (ℕ × Event)) (e : Engine c)
      → ((h : BlockHash) → locked_hash e ≡ some h → locked_hash (run l e).0 ≡ some h)
        × All
            (λ out.
              (h : BlockHash) → precommit_hash out ≡ some h → locked_hash (run l e).0 ≡ some h)
            (run l e).1
  run_follows_lock l e = run-KeepsLock l e
