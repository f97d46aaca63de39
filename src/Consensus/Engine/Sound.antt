-- ===== src/Consensus/Engine/Sound.antt =====
-- src/consensus/tendermint.rs: the invariant of the vote sets of an engine.
use cipher_x.Prelude.{
  ℕ, ◌≡◌, refl, ◌∙◌, true, some, [], ◌∷◌, arith, Bytes, Bytes-discrete, ℕ_discrete, All, All-append,
  Option-cases, inl, inr,
}
use cipher_x.Std.HashMap.{HashMap}
use cipher_x.Std.HashMap
use cipher_x.Crates.{Crates}
use cipher_x.Consensus.Vote.{Vote, VoteType, verify_signature}
use cipher_x.Consensus.VoteSet.{VoteSet, quorum_of, existing}
use cipher_x.Consensus.VoteSet
use cipher_x.Consensus.VoteSet.Tally.{
  IsTally, new-IsTally, add-IsTally, votes_of, votes-record_vote,
}
use cipher_x.Consensus.VoteSet.Quorum.{quorum-add}
use cipher_x.Consensus.State.{Engine}
use cipher_x.Consensus.Rounds.{start_height}
use cipher_x.Consensus.Engine.{earlier_vote, entry}
use cipher_x.Consensus.Engine.Cases.{with_prevote, with_precommit}

-- A vote of the given type, height and round whose signature was verified.
abbrev pub Genuine : Crates → VoteType → ℕ → ℕ → Vote → Type 0
Genuine c t h r v =
    (v.vote_type ≡ t) × (v.height ≡ h) × (v.round ≡ r) × (verify_signature c v ≡ true)

pub record SoundSet (c : Crates) (t : VoteType) (h n r : ℕ) (vs : VoteSet) : Type 0 where
  pub tally : IsTally vs
  pub quorum : vs.quorum ≡ quorum_of n
  pub genuine : All (Genuine c t h r) (votes_of vs)

-- All vote sets of one type are sound.
abbrev pub SoundSets : Crates → VoteType → ℕ → ℕ → HashMap ℕ VoteSet → Type 0
SoundSets c t h n sets =
    (r : ℕ) (vs : VoteSet) → HashMap.get ℕ_discrete r sets ≡ some vs → SoundSet c t h n r vs

pub record IsSound (c : Crates) (e : Engine c) : Type 0 where
  pub prevotes : SoundSets c VoteType.prevote e.height e.total_validators e.prevote_sets
  pub precommits : SoundSets c VoteType.precommit e.height e.total_validators e.precommit_sets

module _ {c : Crates} {t : VoteType} {h n : ℕ} where
  pub add-SoundSet :
      (v : Vote) (vs : VoteSet) (r : ℕ)
      → Genuine c t h r v
      → SoundSet c t h n r vs
      → SoundSet c t h n r (VoteSet.add v vs).0
  unfolding VoteSet.add
  add-SoundSet v vs r g s = record {
    tally = add-IsTally v vs s.tally;
    quorum = quorum-add v vs ∙ s.quorum;
    genuine = elim (Option-cases (existing v.validator_nullifier vs)) [
      | inl fresh ↦
          rw (fresh, VoteSet.add)
            (rw (votes-record_vote v vs fresh)
              (All-append _ (votes_of vs) (v ∷ []) s.genuine (g, tt)))
      | inr (w, old) ↦ rw (old, VoteSet.add) s.genuine
    ];
  }

  pub insert-SoundSets :
      (r : ℕ) (vs : VoteSet) (sets : HashMap ℕ VoteSet)
      → SoundSet c t h n r vs
      → SoundSets c t h n sets
      → SoundSets c t h n (HashMap.insert ℕ_discrete r vs sets)
  insert-SoundSets r vs sets new old = λ q ws p.
      elim (HashMap.get-insert_inv ℕ_discrete r q vs ws sets p) [
        | inl (e, f) ↦ rw (← e, ← f) new
        | inr old_one ↦ old q ws old_one
      ]

module _ {c : Crates} {t : VoteType} (e : Engine c) where
  pub entry-SoundSet :
      (r : ℕ) (sets : HashMap ℕ VoteSet)
      → SoundSets c t e.height e.total_validators sets
      → SoundSet c t e.height e.total_validators r (entry e r sets)
  unfolding entry
  entry-SoundSet r sets s = elim (Option-cases (HashMap.get ℕ_discrete r sets)) [
    | inr (vs, h) ↦ rw (h, entry) (s r vs h)
    | inl h ↦
        rw (h, entry)
          (record {
            tally = new-IsTally e.total_validators;
            quorum = unfold VoteSet.new in refl;
            genuine = unfold VoteSet.new HashMap.values in tt;
          })
  ]

module _ {c : Crates} where
  -- Methods that do not touch the vote sets.
  pub same_sets-IsSound :
      (e e' : Engine c)
      → IsSound c e
      → e'.height ≡ e.height
      → e'.total_validators ≡ e.total_validators
      → e'.prevote_sets ≡ e.prevote_sets
      → e'.precommit_sets ≡ e.precommit_sets
      → IsSound c e'
  same_sets-IsSound e e' s h n p q = record {
    prevotes = rw (h, n, p) s.prevotes;
    precommits = rw (h, n, q) s.precommits;
  }

  pub with_prevote-IsSound :
      (v : Vote) (e : Engine c)
      → Genuine c VoteType.prevote e.height v.round v
      → IsSound c e
      → IsSound c (with_prevote v e)
  with_prevote-IsSound v e g s = record {
    prevotes =
        insert-SoundSets v.round (VoteSet.add v (entry e v.round e.prevote_sets)).0 e.prevote_sets
          (add-SoundSet v (entry e v.round e.prevote_sets) v.round g
            (entry-SoundSet e v.round e.prevote_sets s.prevotes))
          s.prevotes;
    precommits = s.precommits;
  }

  pub precommit_entry-SoundSet :
      (v : Vote) (e : Engine c)
      → Genuine c VoteType.precommit e.height v.round v
      → IsSound c e
      → SoundSet c VoteType.precommit e.height e.total_validators v.round
          (VoteSet.add v (entry e v.round e.precommit_sets)).0
  precommit_entry-SoundSet v e g s =
      add-SoundSet v (entry e v.round e.precommit_sets) v.round g
        (entry-SoundSet e v.round e.precommit_sets s.precommits)

  pub with_precommit-IsSound :
      (v : Vote) (e : Engine c)
      → Genuine c VoteType.precommit e.height v.round v
      → IsSound c e
      → IsSound c (with_precommit v e)
  with_precommit-IsSound v e g s = record {
    prevotes = s.prevotes;
    precommits =
        insert-SoundSets v.round (VoteSet.add v (entry e v.round e.precommit_sets)).0
          e.precommit_sets (precommit_entry-SoundSet v e g s) s.precommits;
  }

  pub start_height-IsSound :
      (height now : ℕ) (e : Engine c) → IsSound c (start_height height now e).0
  unfolding start_height
  start_height-IsSound height now e = record {
    prevotes = λ r vs p. cc (HashMap.get-empty {V = VoteSet} ℕ_discrete r);
    precommits = λ r vs p. cc (HashMap.get-empty {V = VoteSet} ℕ_discrete r);
  }

  held-Genuine :
      (t : VoteType) (h n r : ℕ) (k : Bytes) (w : Vote) (sets : HashMap ℕ VoteSet)
      → SoundSets c t h n sets
      → (vs : VoteSet) → HashMap.get ℕ_discrete r sets ≡ some vs
      → existing k vs ≡ some w
      → Genuine c t h r w × (w.validator_nullifier ≡ k)
  unfolding existing
  held-Genuine t h n r k w sets s vs p q = (
    HashMap.All-get Bytes-discrete _ k w vs.votes (s r vs p).genuine q,
    (s r vs p).tally.keyed k w q,
  )

  -- The earlier vote of the validator, of the same type and round, was verified too.
  pub earlier_vote-Genuine :
      (v w : Vote) (t : VoteType) (e : Engine c)
      → v.vote_type ≡ t
      → IsSound c e
      → earlier_vote v e ≡ some w
      → Genuine c t e.height v.round w × (w.validator_nullifier ≡ v.validator_nullifier)
  unfolding earlier_vote
  earlier_vote-Genuine v w VoteType.prevote e p s h =
      elim (Option-cases (HashMap.get ℕ_discrete v.round e.prevote_sets)) [
        | inl e0 ↦ ground (arith, e0)
        | inr (vs, e1) ↦
            held-Genuine VoteType.prevote e.height e.total_validators v.round v.validator_nullifier
              w e.prevote_sets s.prevotes vs e1 (ground (arith, e1))
      ]
  earlier_vote-Genuine v w VoteType.precommit e p s h =
      elim (Option-cases (HashMap.get ℕ_discrete v.round e.precommit_sets)) [
        | inl e0 ↦ ground (arith, e0)
        | inr (vs, e1) ↦
            held-Genuine VoteType.precommit e.height e.total_validators v.round
              v.validator_nullifier w e.precommit_sets s.precommits vs e1 (ground (arith, e1))
      ]
