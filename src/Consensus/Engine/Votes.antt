-- ===== src/Consensus/Engine/Votes.antt =====
-- src/consensus/tendermint.rs: second votes, and votes with a large power.
use cipher_x.Prelude.{
  ℕ, ◌<◌, ◌≤◌, ◌≡◌, refl, ap, ◌∙◌, true, none, some, [], ◌∷◌, ◌++◌, arith, ℕ_discrete, Option-cases,
  inl, inr, is_yes, if◌then◌else◌, u64_mod,
}
use cipher_x.Std.HashMap
use cipher_x.Std.Result.{ok}
use cipher_x.Core.Block
use cipher_x.Crates.{Crates}
use cipher_x.Consensus.Vote.{Vote, VoteType, Proposal, verify_signature}
use cipher_x.Consensus.VoteSet.{VoteSet, quorum_of, existing, hash-discrete, power_of}
use cipher_x.Consensus.VoteSet
use cipher_x.Consensus.State.{Engine, slash_evidence, finalized_block, pending}
use cipher_x.Consensus.Engine.{
  entry, earlier_vote, detect_equivocation, handle_vote, handle_precommit, receive_vote, finalize,
}

module _ {c : Crates} (now : ℕ) (v w : Vote) (e : Engine c) where
  -- A vote that was counted before, on the side of the vote sets.
  same_prevote :
      v.vote_type ≡ VoteType.prevote
      → earlier_vote v e ≡ some w
      → handle_vote now v e ≡ (e, pending)
  unfolding handle_vote earlier_vote
  same_prevote t h = elim (Option-cases (HashMap.get ℕ_discrete v.round e.prevote_sets)) [
    | inl n ↦ ground (arith, n)
    | inr (vs, g) ↦
        unfold entry VoteSet.add in
        ground (arith, g, HashMap.insert_same ℕ_discrete v.round vs e.prevote_sets g)
  ]

  same_precommit :
      v.vote_type ≡ VoteType.precommit
      → earlier_vote v e ≡ some w
      → handle_vote now v e ≡ (e, pending)
  unfolding handle_vote earlier_vote
  same_precommit t h = elim (Option-cases (HashMap.get ℕ_discrete v.round e.precommit_sets)) [
    | inl n ↦ ground (arith, n)
    | inr (vs, g) ↦
        unfold entry VoteSet.add in
        ground (arith, g, HashMap.insert_same ℕ_discrete v.round vs e.precommit_sets g)
  ]

  same_vote :
      (t : VoteType)
      → v.vote_type ≡ t
      → earlier_vote v e ≡ some w
      → handle_vote now v e ≡ (e, pending)
  same_vote VoteType.prevote t h = same_prevote t h
  same_vote VoteType.precommit t h = same_precommit t h

  -- A verified vote of this height, whose validator already has a vote `w` of the same type and
  -- round: if `w` is for the same value, the engine stays as it was and nothing is sent; if not, the
  -- engine only adds evidence with both votes to its list, and reports that evidence.
  pub second_vote :
      v.height ≡ e.height
      → verify_signature c v ≡ true
      → earlier_vote v e ≡ some w
      → receive_vote now v e ≡ (
          if is_yes (hash-discrete w.block_hash v.block_hash) then (e, ok pending) else (
            record e {
              equivocations =
                  e.equivocations
                  ++ record {
                    height = e.height;
                    round = e.round;
                    vote_type = v.vote_type;
                    vote_a = w;
                    vote_b = v;
                  }
                    ∷ [];
            },
            ok (
                slash_evidence (record {
                  height = e.height;
                  round = e.round;
                  vote_type = v.vote_type;
                  vote_a = w;
                  vote_b = v;
                })),
          ))
  unfolding receive_vote detect_equivocation
  second_vote height verified earlier =
      ground (arith, height, verified, earlier, same_vote v.vote_type refl earlier)

module _ {c : Crates} (now : ℕ) (v : Vote) (e : Engine c) where
  -- A verified first vote is counted.
  counted_vote :
      v.height ≡ e.height
      → verify_signature c v ≡ true
      → earlier_vote v e ≡ none
      → receive_vote now v e ≡ ((handle_vote now v e).0, ok (handle_vote now v e).1)
  unfolding receive_vote detect_equivocation
  counted_vote h k n = ground (arith, h, k, n)

  no_earlier_precommit :
      v.vote_type ≡ VoteType.precommit
      → existing v.validator_nullifier (entry e v.round e.precommit_sets) ≡ none
      → earlier_vote v e ≡ none
  unfolding earlier_vote entry
  no_earlier_precommit t n = ground (arith, t, n)

  precommit_counted :
      v.vote_type ≡ VoteType.precommit → handle_vote now v e ≡ handle_precommit now v e
  unfolding handle_vote
  precommit_counted t = ground (arith, t)

  pub first_precommit :
      v.vote_type ≡ VoteType.precommit
      → v.height ≡ e.height
      → verify_signature c v ≡ true
      → existing v.validator_nullifier (entry e v.round e.precommit_sets) ≡ none
      → receive_vote now v e ≡ ((handle_precommit now v e).0, ok (handle_precommit now v e).1)
  first_precommit t h k n =
      counted_vote h k (no_earlier_precommit t n) ∙ ap (λ r. (r.0, ok r.1)) (precommit_counted t)

module _ {c : Crates} (now : ℕ) (v : Vote) (p : Proposal) (e : Engine c) where
  quorum_for_proposal :
      (VoteSet.add v (entry e v.round e.precommit_sets)).1 ≡ some (some (Block.hash c p.block))
      → e.current_proposal ≡ some p
      → (handle_precommit now v e).1
        ≡ finalized_block p.block
            (HashMap.values (VoteSet.add v (entry e v.round e.precommit_sets)).0.votes)
  unfolding handle_precommit finalize
  quorum_for_proposal r q = rw (r, handle_precommit) (ground (arith, q))

add_first :
    (v : Vote) (n : ℕ)
    → quorum_of n ≤ v.voting_power
    → v.voting_power < u64_mod
    → ((VoteSet.add v (VoteSet.new n)).1 ≡ some v.block_hash)
      × (HashMap.values (VoteSet.add v (VoteSet.new n)).0.votes ≡ v ∷ [])
unfolding VoteSet.add VoteSet.record_vote VoteSet.new existing power_of HashMap.get HashMap.insert
    HashMap.values
add_first v n q small = ground (arith, q, small)

module _ {c : Crates} (now : ℕ) (v : Vote) (p : Proposal) (e : Engine c) where
  -- An unsigned precommit vote of this height for the hash of the current proposal, the first of
  -- its round, makes the block final by itself if the power that it claims reaches the quorum.
  pub lone_vote_finalizes :
      v.vote_type ≡ VoteType.precommit
      → v.height ≡ e.height
      → v.signature ≡ []
      → e.current_proposal ≡ some p
      → v.block_hash ≡ some (Block.hash c p.block)
      → HashMap.get ℕ_discrete v.round e.precommit_sets ≡ none
      → quorum_of e.total_validators ≤ v.voting_power
      → v.voting_power < u64_mod
      → (receive_vote now v e).1 ≡ ok (finalized_block p.block (v ∷ []))
  unfolding handle_precommit finalize entry existing VoteSet.new HashMap.get
  lone_vote_finalizes t h s q b fresh enough small =
      let made : entry e v.round e.precommit_sets ≡ VoteSet.new e.total_validators =
        ground (arith, fresh) in
      let (report, stored) = add_first v e.total_validators enough small in
      let (r, l) : ((VoteSet.add v (entry e v.round e.precommit_sets)).1
            ≡ some (some (Block.hash c p.block)))
          × (HashMap.values (VoteSet.add v (entry e v.round e.precommit_sets)).0.votes ≡ v ∷ []) =
        rw made (report ∙ ap some b, stored) in
      rw (first_precommit now v e t h (unfold verify_signature in ground (arith, s)) (rw made refl))
        (ap ok (quorum_for_proposal now v p e r q ∙ ap (finalized_block p.block) l))
