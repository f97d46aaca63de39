-- ===== src/Consensus/VoteSet/Tally.antt =====
-- src/consensus/tendermint.rs, `VoteSet`: the tally and the votes that a set holds.
use cipher_x.Prelude.{
  ℕ, ◌+◌, ◌%◌, ◌≤◌, ◌≡◌, refl, ap, Option, none, some, List, [], ◌∷◌, ◌++◌, Bytes, arith,
  Bytes-discrete, ite, u64_mod, Option-cases, inl, inr, Distinct, Absent, Distinct-append_one,
  Absent-append,
}
use cipher_x.Std.HashMap
use cipher_x.Core.Types.{BlockHash}
use cipher_x.Consensus.Vote.{Vote}
use cipher_x.Consensus.VoteSet.{VoteSet, new, power_of, existing, record_vote, add, hash-discrete}

-- The power of the votes for one value, and of all votes, without wrap-around.
unfoldable pub power_for : Option BlockHash → List Vote → ℕ
power_for bh [] = 0
power_for bh (v ∷ vs) = ite (hash-discrete v.block_hash bh) v.voting_power 0 + power_for bh vs

unfoldable pub total_power : List Vote → ℕ
total_power [] = 0
total_power (v ∷ vs) = v.voting_power + total_power vs

pub power_for-append :
    (bh : Option BlockHash) (xs ys : List Vote)
    → power_for bh (xs ++ ys) ≡ power_for bh xs + power_for bh ys
unfolding power_for
power_for-append bh [] ys = omega arith
power_for-append bh (v ∷ xs) ys = omega (arith, power_for-append bh xs ys)

pub total_power-append :
    (xs ys : List Vote) → total_power (xs ++ ys) ≡ total_power xs + total_power ys
unfolding total_power
total_power-append [] ys = omega arith
total_power-append (v ∷ xs) ys = omega (arith, total_power-append xs ys)

pub power_for-le : (bh : Option BlockHash) (vs : List Vote) → power_for bh vs ≤ total_power vs
unfolding power_for total_power
power_for-le bh [] = omega arith
power_for-le bh (v ∷ vs) = ground (arith, power_for-le bh vs)

-- Two different values share no vote.
pub power_for_two :
    (a b : Option BlockHash) (vs : List Vote)
    → (a ≡ b → ⊥)
    → power_for a vs + power_for b vs ≤ total_power vs
unfolding power_for total_power
power_for_two a b [] h = omega arith
power_for_two a b (v ∷ vs) h = ground (arith, power_for_two a b vs h)

abbrev pub votes_of : VoteSet → List Vote
votes_of vs = HashMap.values vs.votes

-- The validators that have voted.
unfoldable pub nullifiers : List Vote → List Bytes
nullifiers [] = []
nullifiers (v ∷ vs) = v.validator_nullifier ∷ nullifiers vs

nullifiers-append : (xs ys : List Vote) → nullifiers (xs ++ ys) ≡ nullifiers xs ++ nullifiers ys
unfolding nullifiers
nullifiers-append [] ys = refl
nullifiers-append (v ∷ xs) ys = ap (◌∷◌ v.validator_nullifier) (nullifiers-append xs ys)

-- The running tally agrees with the votes, up to the wrap-around of u64, and no validator has two
-- votes.
pub record IsTally (vs : VoteSet) : Type 0 where
  pub tallied : (bh : Option BlockHash) → power_of bh vs ≡ power_for bh (votes_of vs) % u64_mod
  pub distinct : Distinct (nullifiers (votes_of vs))
  pub keyed : (k : Bytes) (w : Vote) → existing k vs ≡ some w → w.validator_nullifier ≡ k
  pub complete : (k : Bytes) → existing k vs ≡ none → Absent k (nullifiers (votes_of vs))

pub new-IsTally : (total : ℕ) → IsTally (new total)
unfolding new power_of power_for HashMap.values nullifiers
new-IsTally total = record {
  tallied = λ bh. rw (HashMap.get-empty hash-discrete bh, power_of) refl;
  distinct = tt;
  keyed = λ k w h. unfold existing in cc (HashMap.get-empty {V = Vote} Bytes-discrete k);
  complete = λ k h. tt;
}

-- What a new vote does to the votes and to the tally of a value.
pub votes-record_vote :
    (v : Vote) (vs : VoteSet)
    → existing v.validator_nullifier vs ≡ none
    → votes_of (record_vote v vs).0 ≡ votes_of vs ++ v ∷ []
unfolding record_vote existing
votes-record_vote v vs h =
    HashMap.values-insert_fresh Bytes-discrete v.validator_nullifier v vs.votes h

pub power_of-record_vote :
    (bh : Option BlockHash) (v : Vote) (vs : VoteSet)
    → power_of bh (record_vote v vs).0
      ≡ ite
          (hash-discrete v.block_hash bh)
          ((power_of bh vs + v.voting_power) % u64_mod)
          (power_of bh vs)
unfolding record_vote power_of
power_of-record_vote bh v vs = ground (
  arith,
  HashMap.get-insert hash-discrete v.block_hash bh
      ((power_of v.block_hash vs + v.voting_power) % u64_mod) vs.power_by_block,
)

existing-record_vote :
    (k : Bytes) (v : Vote) (vs : VoteSet)
    → existing k (record_vote v vs).0
      ≡ ite (Bytes-discrete v.validator_nullifier k) (some v) (existing k vs)
unfolding existing record_vote
existing-record_vote k v vs = HashMap.get-insert Bytes-discrete v.validator_nullifier k v vs.votes

record_vote-IsTally :
    (v : Vote) (vs : VoteSet)
    → existing v.validator_nullifier vs ≡ none
    → IsTally vs
    → IsTally (record_vote v vs).0
unfolding power_for
record_vote-IsTally v vs fresh t = record {
  tallied = λ bh. rw (votes-record_vote v vs fresh) (
      ground (
        arith,
        t.tallied bh,
        power_of-record_vote bh v vs,
        power_for-append bh (votes_of vs) (v ∷ []),
      ));
  distinct =
      rw (votes-record_vote v vs fresh, nullifiers-append (votes_of vs) (v ∷ []))
        (unfold nullifiers in
          Distinct-append_one (nullifiers (votes_of vs)) v.validator_nullifier t.distinct
            (t.complete v.validator_nullifier fresh));
  keyed = λ k w h. ground (arith, existing-record_vote k v vs, t.keyed k w);
  complete = λ k h.
      rw (votes-record_vote v vs fresh, nullifiers-append (votes_of vs) (v ∷ []))
        (unfold nullifiers in
          Absent-append k (nullifiers (votes_of vs)) (v.validator_nullifier ∷ [])
            (t.complete k (ground (arith, existing-record_vote k v vs)))
            ((λ e. ground (arith, existing-record_vote k v vs)), tt));
}

-- Every vote, counted or ignored, keeps the tally right.
pub add-IsTally : (v : Vote) (vs : VoteSet) → IsTally vs → IsTally (add v vs).0
unfolding add
add-IsTally v vs t = elim (Option-cases (existing v.validator_nullifier vs)) [
  | inl fresh ↦ rw (fresh, add) (record_vote-IsTally v vs fresh t)
  | inr (w, old) ↦ rw (old, add) t
]
