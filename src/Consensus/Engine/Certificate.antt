-- ===== src/Consensus/Engine/Certificate.antt =====
-- src/consensus/tendermint.rs: the certificates that finalized blocks and evidence come with.
use cipher_x.Prelude.{
  ℕ, ◌≤◌, ◌≡◌, refl, ap, subst, ◌∙◌, true, some, List, [], ◌∷◌, arith, All, All-append, Distinct,
}
use cipher_x.Core.Types.{Block, BlockHash}
use cipher_x.Core.Block
use cipher_x.Crates.{Crates}
use cipher_x.Consensus.Vote.{Vote, VoteType, Proposal, verify_signature}
use cipher_x.Consensus.VoteSet.{VoteSet, quorum_of, existing}
use cipher_x.Consensus.VoteSet
use cipher_x.Consensus.VoteSet.Tally.{votes_of, power_for, nullifiers}
use cipher_x.Consensus.VoteSet.Quorum.{quorum-add, reported_power}
use cipher_x.Consensus.State.{
  Engine, ConsensusOutput, finalized_block, slash_evidence, EquivocationEvidence,
}
use cipher_x.Consensus.Rounds.{
  submit_proposal, receive_proposal, start_height, enter_propose, start_new_round,
}
use cipher_x.Consensus.Engine.{
  detect_equivocation, receive_vote, check_timeout, handle_prevote, handle_precommit, handle_vote,
  enter_precommit, finalize,
}
use cipher_x.Consensus.Engine.Cases.{
  handle_prevote_cases, handle_precommit_cases, receive_vote_cases, with_precommit, precommit_entry,
  finalize_cases, detect_equivocation_inv,
}
use cipher_x.Consensus.Engine.Run.{
  Event, submits, receives, votes, ticks, step, run, outputs, timeout_outputs,
}
use cipher_x.Consensus.Engine.Sound.{
  Genuine, IsSound, same_sets-IsSound, with_prevote-IsSound, precommit_entry-SoundSet,
  with_precommit-IsSound, start_height-IsSound, earlier_vote-Genuine,
}

-- What an output comes with, at height `h` with `n` validators: a final block with a quorum, and
-- evidence with two votes of one validator that contradict each other.
abbrev pub Justified : Crates → ℕ → ℕ → ConsensusOutput → Type 0
Justified c h n (finalized_block b vs) =
    (r : ℕ) × All (Genuine c VoteType.precommit h r) vs
    × Distinct (nullifiers vs)
    × (quorum_of n ≤ power_for (some (Block.hash c b)) vs)
Justified c h n (slash_evidence ev) =
    (r : ℕ) × Genuine c ev.vote_type h r ev.vote_a
    × Genuine c ev.vote_type h r ev.vote_b
    × (ev.vote_a.validator_nullifier ≡ ev.vote_b.validator_nullifier)
    × (ev.vote_a.block_hash ≡ ev.vote_b.block_hash → ⊥)
Justified c h n _ = Unit

-- What a step does: it keeps the sets sound and the height, and its outputs are certified.
abbrev pub KeepsSound : {c : Crates} → Engine c → Engine c → List ConsensusOutput → Type 0
KeepsSound {c} e e' outs =
    IsSound c e'
    × (e'.height ≡ e.height)
    × (e'.total_validators ≡ e.total_validators)
    × All (Justified c e.height e.total_validators) outs

module _ {c : Crates} where
  submit_proposal-KeepsSound :
      (b : Block) (e : Engine c)
      → IsSound c e
      → KeepsSound e (submit_proposal b e).0 (outputs (submit_proposal b e).1)
  submit_proposal-KeepsSound b e s =
      unfold submit_proposal in
      (
        same_sets-IsSound e (submit_proposal b e).0 s (ground arith) (ground arith) (ground arith)
            (ground arith),
        ground arith,
        ground arith,
        ground arith,
      )

  receive_proposal-KeepsSound :
      (now : ℕ) (p : Proposal) (e : Engine c)
      → IsSound c e
      → KeepsSound e (receive_proposal now p e).0 (outputs (receive_proposal now p e).1)
  receive_proposal-KeepsSound now p e s =
      unfold receive_proposal in
      (
        same_sets-IsSound e (receive_proposal now p e).0 s (ground arith) (ground arith)
            (ground arith) (ground arith),
        ground arith,
        ground arith,
        ground arith,
      )

  check_timeout-KeepsSound :
      (now : ℕ) (e : Engine c)
      → IsSound c e
      → KeepsSound e (check_timeout now e).0 (timeout_outputs (check_timeout now e).1)
  check_timeout-KeepsSound now e s =
      unfold check_timeout enter_precommit enter_propose start_new_round in
      (
        same_sets-IsSound e (check_timeout now e).0 s (ground arith) (ground arith) (ground arith)
            (ground arith),
        ground arith,
        ground arith,
        ground arith,
      )

  handle_prevote-KeepsSound :
      (now : ℕ) (v : Vote) (e : Engine c)
      → Genuine c VoteType.prevote e.height v.round v
      → IsSound c e
      → KeepsSound e (handle_prevote now v e).0 ((handle_prevote now v e).1 ∷ [])
  handle_prevote-KeepsSound now v e g s =
      let s' = with_prevote-IsSound v e g s in
      handle_prevote_cases (λ e' out. KeepsSound e e' (out ∷ [])) now v e
        (λ h. (s', refl, refl, (tt, tt)))
        (λ h.
          unfold enter_precommit in
          (record { prevotes = s'.prevotes; precommits = s'.precommits }, refl, refl, (tt, tt)))
        (λ bh h.
          unfold enter_precommit in
          (record { prevotes = s'.prevotes; precommits = s'.precommits }, refl, refl, (tt, tt)))

  finalize-KeepsSound :
      (bh : BlockHash) (v : Vote) (e : Engine c)
      → Genuine c VoteType.precommit e.height v.round v
      → IsSound c e
      → (VoteSet.add v (precommit_entry v e)).1 ≡ some (some bh)
      → let r =
          finalize bh (votes_of (VoteSet.add v (precommit_entry v e)).0) (with_precommit v e) in
        KeepsSound e r.0 (r.1 ∷ [])
  finalize-KeepsSound bh v e g s h =
      let s' = with_precommit-IsSound v e g s in
      let vs = precommit_entry-SoundSet v e g s in
      finalize_cases (λ e' out. KeepsSound e e' (out ∷ [])) bh
        (votes_of (VoteSet.add v (precommit_entry v e)).0) (with_precommit v e)
        (s', refl, refl, (tt, tt))
        (λ p q same. (
          record { prevotes = s'.prevotes; precommits = s'.precommits },
          refl,
          refl,
          (
            (
              v.round,
              vs.genuine,
              vs.tally.distinct,
              rw same (
                  omega (
                    arith,
                    reported_power v (precommit_entry v e) (some bh) h,
                    quorum-add v (precommit_entry v e),
                    vs.quorum,
                    vs.tally.tallied (some bh),
                  )),
            ),
            tt,
          ),
        ))

  handle_precommit-KeepsSound :
      (now : ℕ) (v : Vote) (e : Engine c)
      → Genuine c VoteType.precommit e.height v.round v
      → IsSound c e
      → KeepsSound e (handle_precommit now v e).0 ((handle_precommit now v e).1 ∷ [])
  handle_precommit-KeepsSound now v e g s =
      let s' = with_precommit-IsSound v e g s in
      handle_precommit_cases (λ e' out. KeepsSound e e' (out ∷ [])) now v e
        (λ h. (s', refl, refl, (tt, tt)))
        (λ h.
          unfold enter_propose start_new_round in
          (record { prevotes = s'.prevotes; precommits = s'.precommits }, refl, refl, (tt, tt)))
        (λ bh h. finalize-KeepsSound bh v e g s h)

  handle_vote-KeepsSound :
      (now : ℕ) (v : Vote) (t : VoteType) (e : Engine c)
      → v.vote_type ≡ t
      → v.height ≡ e.height
      → verify_signature c v ≡ true
      → IsSound c e
      → KeepsSound e (handle_vote now v e).0 ((handle_vote now v e).1 ∷ [])
  unfolding handle_vote
  handle_vote-KeepsSound now v VoteType.prevote e t h k s =
      rw (t, handle_vote) (handle_prevote-KeepsSound now v e (t, h, refl, k) s)
  handle_vote-KeepsSound now v VoteType.precommit e t h k s =
      rw (t, handle_vote) (handle_precommit-KeepsSound now v e (t, h, refl, k) s)

  evidence-Justified :
      (v : Vote) (e : Engine c) (ev : EquivocationEvidence)
      → v.height ≡ e.height
      → verify_signature c v ≡ true
      → detect_equivocation v e ≡ some ev
      → IsSound c e
      → Justified c e.height e.total_validators (slash_evidence ev)
  evidence-Justified v e ev h k d s =
      let (old, new, type, differ) = detect_equivocation_inv v e ev d in
      let (genuine, owner) = earlier_vote-Genuine v ev.vote_a v.vote_type e refl s old in
      (
        v.round,
        rw type genuine,
        rw (new, type) (refl, h, refl, k),
        rw new owner,
        (λ q. differ (q ∙ ap (λ (w : Vote). w.block_hash) new)),
      )

  receive_vote-KeepsSound :
      (now : ℕ) (v : Vote) (e : Engine c)
      → IsSound c e
      → KeepsSound e (receive_vote now v e).0 (outputs (receive_vote now v e).1)
  receive_vote-KeepsSound now v e s =
      receive_vote_cases (λ e' r. KeepsSound e e' (outputs r)) now v e (λ h. (s, refl, refl, tt))
        (λ h. (s, refl, refl, (tt, tt)))
        (λ ev h k d. (
          record { prevotes = s.prevotes; precommits = s.precommits },
          refl,
          refl,
          (evidence-Justified v e ev h k d s, tt),
        ))
        (λ h k d. handle_vote-KeepsSound now v v.vote_type e refl h k s)

  step-KeepsSound :
      (now : ℕ) (ev : Event) (e : Engine c)
      → IsSound c e
      → KeepsSound e (step now ev e).0 (step now ev e).1
  unfolding step
  step-KeepsSound now (submits b) e s = submit_proposal-KeepsSound b e s
  step-KeepsSound now (receives p) e s = receive_proposal-KeepsSound now p e s
  step-KeepsSound now (votes v) e s = receive_vote-KeepsSound now v e s
  step-KeepsSound now ticks e s = check_timeout-KeepsSound now e s

  run-KeepsSound :
      (l : List (ℕ × Event)) (e : Engine c) → IsSound c e → KeepsSound e (run l e).0 (run l e).1
  unfolding run
  run-KeepsSound [] e s = (s, refl, refl, tt)
  run-KeepsSound ((now, ev) ∷ l) e s =
      let (s1, h1, n1, o1) = step-KeepsSound now ev e s in
      let (s2, h2, n2, o2) = run-KeepsSound l (step now ev e).0 s1 in
      (
        s2,
        h2 ∙ h1,
        n2 ∙ n1,
        All-append _ (step now ev e).1 (run l (step now ev e).0).1 o1 (
            subst (λ n. All (Justified c e.height n) (run l (step now ev e).0).1) n1
              (subst
                (λ h.
                  All (Justified c h (step now ev e).0.total_validators)
                    (run l (step now ev e).0).1)
                h1 o2)),
      )

  -- After `start_height`, whatever proposals, votes and timeouts come in:
  -- each block that the engine reports as final comes with precommit votes of one round, all for this
  -- height and with a verified signature, of pairwise different validators, and the powers of those
  -- that are for the hash of this block add up to at least the quorum for the number of validators;
  -- and each piece of slashing evidence holds two votes of one validator, both for this height, of
  -- the same type and round and with a verified signature, for different values.
  pub run-Justified :
      (height now : ℕ) (e : Engine c) (l : List (ℕ × Event))
      → All (Justified c height e.total_validators) (run l (start_height height now e).0).1
  unfolding start_height
  run-Justified height now e l =
      (run-KeepsSound l (start_height height now e).0 (start_height-IsSound height now e)).3
