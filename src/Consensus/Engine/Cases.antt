-- ===== src/Consensus/Engine/Cases.antt =====
-- src/consensus/tendermint.rs: one rule for the branches of each method of the engine.
use cipher_x.Prelude.{
  ℕ, ◌≡◌, refl, true, false, none, some, List, [], ◌∷◌, ◌++◌, arith, ◌==◌, Bool-cases, Option-cases,
  inl, inr, ℕ_discrete, Bytes-discrete,
}
use cipher_x.Std.HashMap
use cipher_x.Std.Result.{Result, ok, err}
use cipher_x.Core.Block
use cipher_x.Core.Types.{BlockHash}
use cipher_x.Crates.{Crates}
use cipher_x.Consensus.Vote.{Vote, Proposal, verify_signature}
use cipher_x.Consensus.VoteSet.{VoteSet}
use cipher_x.Consensus.VoteSet
use cipher_x.Consensus.State.{
  Engine, EquivocationEvidence, ConsensusStep, ConsensusOutput, ConsensusError, wrong_height,
  slash_evidence, pending, finalized_block,
}
use cipher_x.Consensus.Rounds.{enter_propose, start_new_round}
use cipher_x.Consensus.Engine.{
  entry, enter_precommit, new_lock, finalize, handle_prevote, handle_precommit, handle_vote,
  detect_equivocation, earlier_vote, receive_vote,
}

module _ {c : Crates} (v : Vote) (e : Engine c) where
  abbrev pub prevote_entry : VoteSet
  prevote_entry = entry e v.round e.prevote_sets

  abbrev pub precommit_entry : VoteSet
  precommit_entry = entry e v.round e.precommit_sets

  -- The engine with a vote counted.
  abbrev pub with_prevote : Engine c
  with_prevote = record e {
    prevote_sets = HashMap.insert ℕ_discrete v.round (VoteSet.add v prevote_entry).0 e.prevote_sets;
  }

  abbrev pub with_precommit : Engine c
  with_precommit = record e {
    precommit_sets =
        HashMap.insert ℕ_discrete v.round (VoteSet.add v precommit_entry).0 e.precommit_sets;
  }

  -- The engine with the block that has a prevote quorum as its valid block, and with its new lock.
  abbrev pub with_quorum : BlockHash → Engine c
  with_quorum bh = record with_prevote {
    valid_block = some (bh, v.round);
    locked_block = new_lock with_prevote bh v.round;
  }

module _ {ℓ} {c : Crates} (P : Engine c → ConsensusOutput → Type ℓ) (now : ℕ) (v : Vote)
    (e : Engine c) where
  pub handle_prevote_cases :
      ((VoteSet.add v (prevote_entry v e)).1 ≡ none → P (with_prevote v e) pending)
      → ((VoteSet.add v (prevote_entry v e)).1 ≡ some none
          → P
              (enter_precommit now false (with_prevote v e)).0
              (enter_precommit now false (with_prevote v e)).1)
      → ((bh : BlockHash)
          → (VoteSet.add v (prevote_entry v e)).1 ≡ some (some bh)
          → P
              (enter_precommit now true (with_quorum v e bh)).0
              (enter_precommit now true (with_quorum v e bh)).1)
      → P (handle_prevote now v e).0 (handle_prevote now v e).1
  unfolding handle_prevote
  handle_prevote_cases none_yet nil block =
      elim (Option-cases (VoteSet.add v (prevote_entry v e)).1) [
        | inl h ↦ rw (h, handle_prevote) (none_yet h)
        | inr (none, h) ↦ rw (h, handle_prevote) (nil h)
        | inr (some bh, h) ↦ rw (h, handle_prevote) (block bh h)
      ]

  pub handle_precommit_cases :
      ((VoteSet.add v (precommit_entry v e)).1 ≡ none → P (with_precommit v e) pending)
      → ((VoteSet.add v (precommit_entry v e)).1 ≡ some none
          → P
              (enter_propose now (start_new_round now (with_precommit v e))).0
              (enter_propose now (start_new_round now (with_precommit v e))).1)
      → ((bh : BlockHash)
          → (VoteSet.add v (precommit_entry v e)).1 ≡ some (some bh)
          → let votes = HashMap.values (VoteSet.add v (precommit_entry v e)).0.votes in
            P (finalize bh votes (with_precommit v e)).0 (finalize bh votes (with_precommit v e)).1)
      → P (handle_precommit now v e).0 (handle_precommit now v e).1
  unfolding handle_precommit
  handle_precommit_cases none_yet nil block =
      elim (Option-cases (VoteSet.add v (precommit_entry v e)).1) [
        | inl h ↦ rw (h, handle_precommit) (none_yet h)
        | inr (none, h) ↦ rw (h, handle_precommit) (nil h)
        | inr (some bh, h) ↦ rw (h, handle_precommit) (block bh h)
      ]

module _ {c : Crates} where
  -- What evidence says: the new vote, and a different one that the validator cast before.
  pub detect_equivocation_inv :
      (v : Vote) (e : Engine c) (ev : EquivocationEvidence)
      → detect_equivocation v e ≡ some ev
      → (earlier_vote v e ≡ some ev.vote_a)
        × (ev.vote_b ≡ v)
        × (ev.vote_type ≡ v.vote_type)
        × (ev.vote_a.block_hash ≡ v.block_hash → ⊥)
  unfolding detect_equivocation
  detect_equivocation_inv v e ev h = ground arith

module _ {ℓ} {c : Crates} (P : Engine c → Result ConsensusError ConsensusOutput → Type ℓ) (now : ℕ)
    (v : Vote) (e : Engine c) where
  pub receive_vote_cases :
      ((v.height == e.height) ≡ false → P e (err (wrong_height e.height v.height)))
      → (verify_signature c v ≡ false → P e (ok pending))
      → ((ev : EquivocationEvidence)
          → v.height ≡ e.height
          → verify_signature c v ≡ true
          → detect_equivocation v e ≡ some ev
          → P (record e { equivocations = e.equivocations ++ ev ∷ [] }) (ok (slash_evidence ev)))
      → (v.height ≡ e.height
          → verify_signature c v ≡ true
          → detect_equivocation v e ≡ none
          → P (handle_vote now v e).0 (ok (handle_vote now v e).1))
      → P (receive_vote now v e).0 (receive_vote now v e).1
  unfolding receive_vote
  receive_vote_cases height signature slashed counted = elim (Bool-cases (v.height == e.height)) [
    | inr h ↦ rw (h, receive_vote) (height h)
    | inl h ↦ elim (Bool-cases (verify_signature c v)) [
      | inr s ↦ rw (h, s, receive_vote) (signature s)
      | inl s ↦ elim (Option-cases (detect_equivocation v e)) [
        | inr (ev, d) ↦ rw (h, s, d, receive_vote) (slashed ev (ground arith) s d)
        | inl d ↦ rw (h, s, d, receive_vote) (counted (ground arith) s d)
      ]
    ]
  ]

module _ {ℓ} {c : Crates} (P : Engine c → ConsensusOutput → Type ℓ) (bh : BlockHash) (l : List Vote)
    (e : Engine c) where
  pub finalize_cases :
      P e pending
      → ((p : Proposal)
          → e.current_proposal ≡ some p
          → Block.hash c p.block ≡ bh
          → P (record e { step = ConsensusStep.commit }) (finalized_block p.block l))
      → P (finalize bh l e).0 (finalize bh l e).1
  unfolding finalize
  finalize_cases waiting final = elim (Option-cases e.current_proposal) [
    | inl h ↦ rw (h, finalize) waiting
    | inr (p, h) ↦
        elim (Bytes-discrete (Block.hash c p.block) bh)
            as (λ d.
              Bytes-discrete (Block.hash c p.block) bh ≡ d
              → P (finalize bh l e).0 (finalize bh l e).1) [
                | yes same ↦ λ q. rw (h, finalize) (rw q (final p h same))
                | no other ↦ λ q. rw (h, finalize) (rw q waiting)
              ]
          refl
  ]
