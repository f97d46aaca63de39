-- ===== src/Consensus/Engine/LateVotes.antt =====
-- src/consensus/tendermint.rs: nil precommit votes for a round that the engine has left.
use cipher_x.Prelude.{
  ℕ, suc, ◌+◌, ◌-◌, ◌<◌, ◌≤◌, ◌≡◌, ◌≢◌, refl, ap, sym, subst, ◌∙◌, Bool, true, false, Option, none,
  some, List, [], ◌∷◌, arith, ℕ_discrete, Bytes, Bytes-discrete, All, Distinct, Absent, length, leb,
  if◌then◌else◌, add32, add64, u32_mod, u64_mod,
}
use cipher_x.Std.HashMap.{HashMap}
use cipher_x.Std.HashMap
use cipher_x.Core.Types.{BlockHash}
use cipher_x.Crates.{Crates}
use cipher_x.Consensus.Vote.{Vote, VoteType, verify_signature}
use cipher_x.Consensus.VoteSet.{VoteSet, quorum_of, existing, hash-discrete, power_of}
use cipher_x.Consensus.VoteSet
use cipher_x.Consensus.State.{Engine}
use cipher_x.Consensus.Rounds.{enter_propose, start_new_round}
use cipher_x.Consensus.Engine.{entry, handle_precommit, receive_vote}
use cipher_x.Consensus.Engine.Votes.{first_precommit}

-- Votes, each with the clock's reading when it is received.
unfoldable pub receive_all : {c : Crates} → List (ℕ × Vote) → Engine c → Engine c
receive_all [] e = e
receive_all ((now, v) ∷ rest) e = receive_all rest (receive_vote now v e).0

-- A verified nil precommit for the round, with a power of 1.
pub record NilVote (c : Crates) (height round : ℕ) (v : Vote) : Type 0 where
  pub precommits : v.vote_type ≡ VoteType.precommit
  pub at_height : v.height ≡ height
  pub at_round : v.round ≡ round
  pub for_nil : v.block_hash ≡ none
  pub verified : verify_signature c v ≡ true
  pub one_power : v.voting_power ≡ 1

add-fresh :
    (v : Vote) (vs : VoteSet)
    → existing v.validator_nullifier vs ≡ none
    → VoteSet.add v vs ≡ VoteSet.record_vote v vs
unfolding VoteSet.add
add-fresh v vs fresh = rw (VoteSet.add, fresh) refl

power_of-put :
    (votes : HashMap Bytes Vote) (quorum n : ℕ) (powers : HashMap (Option BlockHash) ℕ)
    → power_of none (record {
      votes = votes;
      quorum = quorum;
      power_by_block = HashMap.insert hash-discrete none n powers;
    })
      ≡ n
unfolding power_of
power_of-put votes quorum n powers =
    ap (λ (o : Option ℕ). elim o [ none ↦ 0 | some p ↦ p ])
      (HashMap.get-insert_self hash-discrete none n powers)

record_vote-nil :
    (v : Vote) (vs : VoteSet)
    → v.block_hash ≡ none
    → v.voting_power ≡ 1
    → power_of none vs + 1 < u64_mod
    → ((VoteSet.record_vote v vs).1
        ≡ (if leb vs.quorum (power_of none vs + 1) then some none else none))
      × ((VoteSet.record_vote v vs).0.quorum ≡ vs.quorum)
      × (power_of none (VoteSet.record_vote v vs).0 ≡ power_of none vs + 1)
unfolding VoteSet.record_vote
record_vote-nil v vs nil one room =
    let sum : add64 (power_of none vs) 1 ≡ power_of none vs + 1 = omega arith in
    rw (VoteSet.record_vote, nil, one, sum)
      (
        refl,
        refl,
        power_of-put (HashMap.insert Bytes-discrete v.validator_nullifier v vs.votes) vs.quorum
            (power_of none vs + 1) vs.power_by_block,
      )

record_vote-others :
    (v : Vote) (vs : VoteSet) (n : Bytes)
    → v.validator_nullifier ≢ n
    → existing n (VoteSet.record_vote v vs).0 ≡ existing n vs
unfolding VoteSet.record_vote existing
record_vote-others v vs n other =
    HashMap.get-insert_other Bytes-discrete v.validator_nullifier n v vs.votes other

module _ {c : Crates} (now : ℕ) (v : Vote) (e : Engine c) where
  held : VoteSet
  held = entry e v.round e.precommit_sets

  entry-put :
      (e' : Engine c) (vs : VoteSet) (sets : HashMap ℕ VoteSet)
      → entry e' v.round (HashMap.insert ℕ_discrete v.round vs sets) ≡ vs
  unfolding entry
  entry-put e' vs sets =
      ap (λ (o : Option VoteSet). elim o [ none ↦ VoteSet.new e'.total_validators | some x ↦ x ])
        (HashMap.get-insert_self ℕ_discrete v.round vs sets)

  -- What is left of an engine after a vote that was counted, with or without a nil quorum.
  counted :
      (b : Bool)
      → (VoteSet.add v held).1 ≡ (if b then some none else none)
      → let e' = (handle_precommit now v e).0 in
        (e'.height ≡ e.height)
        × (entry e' v.round e'.precommit_sets ≡ (VoteSet.add v held).0)
        × (e'.round ≡ (if b then add32 e.round 1 else e.round))
  unfolding handle_precommit start_new_round enter_propose entry held
  counted true h =
      rw (h, handle_precommit) (refl, entry-put e (VoteSet.add v held).0 e.precommit_sets, refl)
  counted false h =
      rw (h, handle_precommit) (refl, entry-put e (VoteSet.add v held).0 e.precommit_sets, refl)

  -- One such vote, of a validator that is not in the set held for its round.
  received :
      (round : ℕ)
      → NilVote c e.height round v
      → existing v.validator_nullifier held ≡ none
      → power_of none held + 1 < u64_mod
      → let e' = (receive_vote now v e).0 in
        (e'.height ≡ e.height)
        × (entry e' v.round e'.precommit_sets ≡ (VoteSet.record_vote v held).0)
        × (e'.round
            ≡ (if leb held.quorum (power_of none held + 1) then add32 e.round 1 else e.round))
  unfolding held
  received round n fresh room =
      let added = add-fresh v held fresh in
      let told = (record_vote-nil v held n.for_nil n.one_power room).0 in
      let (high, sets, next) =
        counted (leb held.quorum (power_of none held + 1)) (ap (λ p. p.1) added ∙ told) in
      rw (ap (λ p. p.0) (first_precommit now v e n.precommits n.at_height n.verified fresh))
        (high, sets ∙ ap (λ p. p.0) added, next)

  -- The same, with the round of the vote under another name.
  received_at :
      (round : ℕ)
      → NilVote c e.height round v
      → v.round ≡ round
      → let vs = entry e round e.precommit_sets in
        existing v.validator_nullifier vs ≡ none
        → power_of none vs + 1 < u64_mod
        → let e' = (receive_vote now v e).0 in
          (e'.height ≡ e.height)
          × (entry e' round e'.precommit_sets ≡ (VoteSet.record_vote v vs).0)
          × (e'.round ≡ (if leb vs.quorum (power_of none vs + 1) then add32 e.round 1 else e.round))
  unfolding held
  received_at round n same =
      let e' = (receive_vote now v e).0 in
      subst
        (λ r.
          existing v.validator_nullifier (entry e r e.precommit_sets) ≡ none
          → power_of none (entry e r e.precommit_sets) + 1 < u64_mod
          → (e'.height ≡ e.height)
            × (entry e' r e'.precommit_sets
                ≡ (VoteSet.record_vote v (entry e r e.precommit_sets)).0)
            × (e'.round ≡ (
                if leb (entry e r e.precommit_sets).quorum
                  (power_of none (entry e r e.precommit_sets) + 1)
                then add32 e.round 1
                else e.round)))
        same (received round n)

  received_in :
      (round : ℕ) (vs : VoteSet)
      → entry e round e.precommit_sets ≡ vs
      → NilVote c e.height round v
      → existing v.validator_nullifier vs ≡ none
      → power_of none vs + 1 < u64_mod
      → let e' = (receive_vote now v e).0 in
        (e'.height ≡ e.height)
        × (entry e' round e'.precommit_sets ≡ (VoteSet.record_vote v vs).0)
        × (e'.round ≡ (if leb vs.quorum (power_of none vs + 1) then add32 e.round 1 else e.round))
  received_in round vs is n =
      let e' = (receive_vote now v e).0 in
      subst
        (λ x.
          existing v.validator_nullifier x ≡ none
          → power_of none x + 1 < u64_mod
          → (e'.height ≡ e.height)
            × (entry e' round e'.precommit_sets ≡ (VoteSet.record_vote v x).0)
            × (e'.round
                ≡ (if leb x.quorum (power_of none x + 1) then add32 e.round 1 else e.round)))
        is (received_at round n n.at_round)

abbrev Fresh : VoteSet → List (ℕ × Vote) → Type 0
Fresh vs votes = All (λ p. existing p.1.validator_nullifier vs ≡ none) votes

abbrev pub nullifiers : List (ℕ × Vote) → List Bytes
nullifiers [] = []
nullifiers ((now, v) ∷ votes) = v.validator_nullifier ∷ nullifiers votes

record_vote-Fresh :
    (v : Vote) (vs : VoteSet) (votes : List (ℕ × Vote))
    → Fresh vs votes
    → Absent v.validator_nullifier (nullifiers votes)
    → Fresh (VoteSet.record_vote v vs).0 votes
record_vote-Fresh v vs [] fresh absent = tt
record_vote-Fresh v vs ((now, w) ∷ votes) fresh absent = (
  record_vote-others v vs w.validator_nullifier absent.0 ∙ fresh.0,
  record_vote-Fresh v vs votes fresh.1 absent.1,
)

no_votes-Fresh : (n : ℕ) (votes : List (ℕ × Vote)) → Fresh (VoteSet.new n) votes
unfolding VoteSet.new existing HashMap.get
no_votes-Fresh n [] = tt
no_votes-Fresh n ((now, v) ∷ votes) = (refl, no_votes-Fresh n votes)

-- Rounds that the votes bring, where `power` is held before and the quorum is `quorum`.
advance :
    (quorum power rest : ℕ) (next round : ℕ)
    → next ≡ (if leb quorum (power + 1) then add32 round 1 else round)
    → round + suc rest < u32_mod
    → (next + (rest - (quorum - 1 - (power + 1))) ≡ round + (suc rest - (quorum - 1 - power)))
      × (next + rest < u32_mod)
advance quorum power rest next round h room = (ground arith, ground arith)

module _ {c : Crates} where
  receive_all-round :
      (votes : List (ℕ × Vote)) (e : Engine c) (round : ℕ) (vs : VoteSet)
      → entry e round e.precommit_sets ≡ vs
      → All (λ p. NilVote c e.height round p.1) votes
      → Fresh vs votes
      → Distinct (nullifiers votes)
      → power_of none vs + length votes < u64_mod
      → e.round + length votes < u32_mod
      → (receive_all votes e).round ≡ e.round + (length votes - (vs.quorum - 1 - power_of none vs))
  unfolding receive_all
  receive_all-round [] e round vs is nil fresh distinct small short = omega arith
  receive_all-round ((now, v) ∷ rest) e round vs is nil fresh distinct small short =
      let e' = (receive_vote now v e).0 in
      let vs' = (VoteSet.record_vote v vs).0 in
      let (high, sets, next) =
        received_in now v e round vs is nil.0 fresh.0 (omega (arith, small)) in
      let (_, quorum, power) =
        record_vote-nil v vs nil.0.for_nil nil.0.one_power (omega (arith, small)) in
      let (total, room) =
        advance vs.quorum (power_of none vs) (length rest) e'.round e.round next
          (omega (arith, short)) in
      receive_all-round rest e' round vs' sets
        (subst (λ h. All (λ p. NilVote c h round p.1) rest) (sym high) nil.1)
        (record_vote-Fresh v vs rest fresh.1 distinct.0) distinct.1 (omega (arith, small, power))
        room
      ∙ ap (λ q. e'.round + (length rest - (q - 1 - power_of none vs'))) quorum
      ∙ ap (λ k. e'.round + (length rest - (vs.quorum - 1 - k))) power
      ∙ total

  entry-new :
      (e : Engine c) (round : ℕ)
      → HashMap.get ℕ_discrete round e.precommit_sets ≡ none
      → entry e round e.precommit_sets ≡ VoteSet.new e.total_validators
  unfolding entry
  entry-new e round h = rw (h, entry) refl

  -- Whatever round the engine is in: verified nil precommits of this height, of pairwise different
  -- validators with a power of 1, for one round for which it has no votes yet, each start another
  -- round of the engine from the one on that reaches the quorum; so that n votes raise its round by
  -- n + 1 less the quorum, if they reach it, while rounds fit 32 bits and votes 64.
  pub late_nil_votes_advance :
      (votes : List (ℕ × Vote)) (e : Engine c) (round : ℕ)
      → HashMap.get ℕ_discrete round e.precommit_sets ≡ none
      → All (λ p. NilVote c e.height round p.1) votes
      → Distinct (nullifiers votes)
      → length votes < u64_mod
      → e.round + length votes < u32_mod
      → (receive_all votes e).round ≡ e.round + (length votes + 1 - quorum_of e.total_validators)
  unfolding VoteSet.new power_of HashMap.get
  late_nil_votes_advance votes e round empty nil distinct small short =
      let positive : 1 ≤ quorum_of e.total_validators = omega arith in
      receive_all-round votes e round (VoteSet.new e.total_validators) (entry-new e round empty) nil
        (no_votes-Fresh e.total_validators votes) distinct (omega (arith, small)) short
      ∙ omega (arith, positive)
