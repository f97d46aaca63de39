-- ===== src/Consensus/VoteSet/Quorum.antt =====
-- src/consensus/tendermint.rs, `VoteSet`: the quorums that it reports.
use cipher_x.Prelude.{
  ℕ, ◌+◌, ◌*◌, ◌/◌, ◌≤◌, ◌<◌, ◌≡◌, refl, ◌∙◌, ◌↔◌, Option, none, some, List, [], ◌∷◌, arith,
  u64_mod, Option-cases, inl, inr,
}
use cipher_x.Core.Types.{BlockHash}
use cipher_x.Consensus.Vote.{Vote}
use cipher_x.Consensus.VoteSet.{VoteSet, new, power_of, existing, record_vote, add, hash-discrete}
use cipher_x.Consensus.VoteSet.Tally.{
  IsTally, new-IsTally, add-IsTally, votes_of, power_for, total_power, power_for-append,
  power_for-le, power_for_two, votes-record_vote, power_of-record_vote,
}

-- A sequence of calls of `add`.
unfoldable pub add_all : List Vote → VoteSet → VoteSet
add_all [] vs = vs
add_all (v ∷ rest) vs = add_all rest (add v vs).0

pub quorum-add : (v : Vote) (vs : VoteSet) → (add v vs).0.quorum ≡ vs.quorum
unfolding add record_vote
quorum-add v vs = ground arith

quorum-add_all : (l : List Vote) (vs : VoteSet) → (add_all l vs).quorum ≡ vs.quorum
unfolding add_all
quorum-add_all [] vs = refl
quorum-add_all (v ∷ l) vs = quorum-add_all l (add v vs).0 ∙ quorum-add v vs

pub add_all-IsTally : (l : List Vote) (vs : VoteSet) → IsTally vs → IsTally (add_all l vs)
unfolding add_all
add_all-IsTally [] vs t = t
add_all-IsTally (v ∷ l) vs t = add_all-IsTally l (add v vs).0 (add-IsTally v vs t)

power_for-add :
    (bh : Option BlockHash) (v : Vote) (vs : VoteSet)
    → power_for bh (votes_of vs) ≤ power_for bh (votes_of (add v vs).0)
unfolding add
power_for-add bh v vs = elim (Option-cases (existing v.validator_nullifier vs)) [
  | inl fresh ↦
      rw (fresh, add)
        (rw (votes-record_vote v vs fresh)
          (omega (arith, power_for-append bh (votes_of vs) (v ∷ []))))
  | inr (w, old) ↦ rw (old, add) (omega arith)
]

power_for-add_all :
    (bh : Option BlockHash) (l : List Vote) (vs : VoteSet)
    → power_for bh (votes_of vs) ≤ power_for bh (votes_of (add_all l vs))
unfolding add_all
power_for-add_all bh [] vs = omega arith
power_for-add_all bh (v ∷ l) vs =
    omega (arith, power_for-add bh v vs, power_for-add_all bh l (add v vs).0)

-- A report means that the tally of the reported value has reached the quorum.
pub reported_power :
    (v : Vote) (vs : VoteSet) (bh : Option BlockHash)
    → (add v vs).1 ≡ some bh
    → vs.quorum ≤ power_of bh (add v vs).0
unfolding add
reported_power v vs bh h = elim (Option-cases (existing v.validator_nullifier vs)) [
  | inl fresh ↦
      rw (fresh, add) (unfold record_vote in ground (arith, fresh, h, power_of-record_vote bh v vs))
  | inr (w, old) ↦ ground arith
]

-- For a well-formed vote set whose powers, with the new one, do not overflow: a vote is reported
-- exactly when its validator had not voted and the powers of the votes for its value, with its own,
-- add up to the quorum; what is reported is its value.
pub add-eq-some_iff :
    (v : Vote) (vs : VoteSet) (bh : Option BlockHash)
    → IsTally vs
    → total_power (votes_of vs) + v.voting_power < u64_mod
    → ((add v vs).1 ≡ some bh) ↔ (
        (existing v.validator_nullifier vs ≡ none)
        × (v.block_hash ≡ bh)
        × (vs.quorum ≤ power_for bh (votes_of vs) + v.voting_power))
add-eq-some_iff v vs bh t small = (forth, back)
  where
    forth :
        (add v vs).1 ≡ some bh
        → (existing v.validator_nullifier vs ≡ none)
          × (v.block_hash ≡ bh)
          × (vs.quorum ≤ power_for bh (votes_of vs) + v.voting_power)
    forth h =
        unfold add record_vote in
        ground (arith, t.tallied v.block_hash, power_for-le v.block_hash (votes_of vs))

    back :
        (existing v.validator_nullifier vs ≡ none)
          × (v.block_hash ≡ bh)
          × (vs.quorum ≤ power_for bh (votes_of vs) + v.voting_power)
        → (add v vs).1 ≡ some bh
    back (fresh, same, enough) =
        unfold add record_vote in
        ground (arith, t.tallied v.block_hash, power_for-le v.block_hash (votes_of vs))

-- Votes that reach a vote set made for `n` validators, where 2n fits 64 bits and the votes that it
-- holds have a power of at most `n` in all: a quorum that is reported for `a`, and one that is
-- reported later for `b`, are for the same value.
pub quorum_agreement :
    (n : ℕ) (before between : List Vote) (v w : Vote) (a b : Option BlockHash)
    → n * 2 < u64_mod
    → (add v (add_all before (new n))).1 ≡ some a
    → (add w (add_all between (add v (add_all before (new n))).0)).1 ≡ some b
    → total_power (votes_of (add w (add_all between (add v (add_all before (new n))).0)).0) ≤ n
    → a ≡ b
quorum_agreement n before between v w a b small ra rb total = elim (hash-discrete a b) [
  | yes e ↦ e
  | no d ↦ absurd (
      omega (
        arith,
        first_quorum,
        second_quorum,
        quorum_value,
        power_for_two a b (votes_of s3) d,
        tally_a.tallied a,
        tally_b.tallied b,
        power_for-add_all a between s1,
        power_for-add a w s2,
      ))
]
  where
    s0 : VoteSet
    s0 = add_all before (new n)

    s1 : VoteSet
    s1 = (add v s0).0

    s2 : VoteSet
    s2 = add_all between s1

    s3 : VoteSet
    s3 = (add w s2).0

    tally_a : IsTally s1
    tally_a = add-IsTally v s0 (add_all-IsTally before (new n) (new-IsTally n))

    tally_b : IsTally s3
    tally_b = add-IsTally w s2 (add_all-IsTally between s1 tally_a)

    quorum_value : n * 2 / 3 + 1 ≡ s0.quorum
    quorum_value = unfold new in omega (arith, quorum-add_all before (new n))

    first_quorum : s0.quorum ≤ power_of a s1
    first_quorum = reported_power v s0 a ra

    second_quorum : s0.quorum ≤ power_of b s3
    second_quorum =
        omega (arith, reported_power w s2 b rb, quorum-add_all between s1, quorum-add v s0)
