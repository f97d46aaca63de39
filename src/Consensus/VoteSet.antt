-- ===== src/Consensus/VoteSet.antt =====
-- src/consensus/tendermint.rs, `VoteSet`: the votes of one round and one type, and their tally.
pub mod Tally
pub mod Quorum
use cipher_x.Prelude.{
  ℕ, ◌+◌, ◌*◌, ◌/◌, ◌%◌, ◌^◌, Bool, true, false, Option, none, some, List, [], ◌∷◌, Bytes, leb,
  Bytes-discrete, add64, mul64, if◌then◌else◌, ite,
}
use cipher_x.Std.HashMap.{HashMap}
use cipher_x.Std.HashMap
use cipher_x.Core.Types.{BlockHash}
use cipher_x.Consensus.Vote.{Vote}

unfoldable pub hash-discrete : Discrete (Option BlockHash)
hash-discrete = hlevel Bytes-discrete

pub record VoteSet : Type 0 where
  pub votes : HashMap Bytes Vote
  pub quorum : ℕ
  pub power_by_block : HashMap (Option BlockHash) ℕ

-- 2/3 of the validators, rounded down, and one more.
abbrev pub quorum_of : ℕ → ℕ
quorum_of total = add64 (mul64 total 2 / 3) 1

unfoldable pub new : ℕ → VoteSet
new total = record {
  votes = HashMap.empty;
  quorum = quorum_of total;
  power_by_block = HashMap.empty;
}

-- `power_by_block.entry(bh).or_insert(0)`
unfoldable pub power_of : Option BlockHash → VoteSet → ℕ
power_of bh vs = elim (HashMap.get hash-discrete bh vs.power_by_block) [ none ↦ 0 | some p ↦ p ]

unfoldable pub existing : Bytes → VoteSet → Option Vote
existing nullifier vs = HashMap.get Bytes-discrete nullifier vs.votes

-- Count a vote of a validator that has not voted yet.
unfoldable pub record_vote : Vote → VoteSet → VoteSet × Option (Option BlockHash)
unfolding power_of
record_vote v vs =
    let acc = add64 (power_of v.block_hash vs) v.voting_power in
    (
      record vs {
        votes = HashMap.insert Bytes-discrete v.validator_nullifier v vs.votes;
        power_by_block = HashMap.insert hash-discrete v.block_hash acc vs.power_by_block;
      },
      (if leb vs.quorum acc then some v.block_hash else none),
    )

-- `VoteSet::add`: the set after the vote, and the value (a block or nil) that has the quorum.
unfoldable pub add : Vote → VoteSet → VoteSet × Option (Option BlockHash)
unfolding existing record_vote
add v vs = elim (existing v.validator_nullifier vs) [
  | some _ ↦ (vs, none)
  | none ↦ record_vote v vs
]
