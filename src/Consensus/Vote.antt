-- ===== src/Consensus/Vote.antt =====
-- src/consensus/tendermint.rs: votes and proposals, what they sign and how they are verified.
use cipher_x.Prelude.{
  ℕ, ◌++◌, Bool, true, false, Option, none, some, Bytes, length, ◌==◌, if◌then◌else◌, replicate,
}
use cipher_x.Std.Encoding.{le_bytes, ascii}
use cipher_x.Core.Types.{Block, BlockHash, ValidatorCommitment}
use cipher_x.Core.Block
use cipher_x.Crates.{Crates}

pub data VoteType : Type 0 where
  prevote precommit : VoteType

pub record Vote : Type 0 where
  pub vote_type : VoteType
  pub height : ℕ  -- u64
  pub round : ℕ  -- u32
  pub block_hash : Option BlockHash
  pub validator_nullifier : Bytes
  pub validator_pubkey : Bytes
  pub signature : Bytes
  pub voting_power : ℕ  -- u64

pub record Proposal : Type 0 where
  pub height : ℕ
  pub round : ℕ
  pub block : Block
  pub proposer_nullifier : Bytes
  pub signature : Bytes
  pub validator_proof : ValidatorCommitment

unfoldable pub type_tag : VoteType → Bytes
type_tag prevote = ascii "PREVOTE"
type_tag precommit = ascii "PRECOMMIT"

unfoldable pub hash_or_zero : Option BlockHash → Bytes
hash_or_zero none = replicate 32 0
hash_or_zero (some h) = h

-- `Vote::sign_bytes`
unfoldable pub sign_bytes : Vote → Bytes
unfolding type_tag hash_or_zero
sign_bytes v =
    type_tag v.vote_type
    ++ (le_bytes 8 v.height ++ (le_bytes 4 v.round ++ hash_or_zero v.block_hash))

module _ (c : Crates) where
  open c use {ed25519_key_ok, ed25519_verify}

  -- `Vote::verify_signature`; an empty signature is a trusted vote of the node itself.
  unfoldable pub verify_signature : Vote → Bool
  unfolding sign_bytes
  verify_signature v =
      if length v.signature == 0
      then true
      else if length v.signature == 64
      then (if ed25519_key_ok v.validator_pubkey
          then ed25519_verify v.validator_pubkey (sign_bytes v) v.signature
          else false)
      else false

  -- `Proposal::sign_bytes`
  unfoldable pub proposal_sign_bytes : Proposal → Bytes
  proposal_sign_bytes p =
      ascii "PROPOSAL" ++ (le_bytes 8 p.height ++ (le_bytes 4 p.round ++ Block.hash c p.block))

  -- `ValidatorCommitment::verify`
  unfoldable pub commitment_ok : ValidatorCommitment → Bool
  commitment_ok v = true

  -- `ValidatorCommitment::verify_signature`
  unfoldable pub verify_commitment_signature : ValidatorCommitment → Bytes → Bytes → Bool
  verify_commitment_signature v message signature =
      if length signature == 64
      then (if ed25519_key_ok v.public_key
          then ed25519_verify v.public_key message signature
          else false)
      else false

  -- `Proposal::verify`
  unfoldable pub verify_proposal : Proposal → Bool
  unfolding proposal_sign_bytes commitment_ok verify_commitment_signature
  verify_proposal p =
      if commitment_ok p.validator_proof
      then (if length p.signature == 0
          then true
          else verify_commitment_signature p.validator_proof (proposal_sign_bytes p) p.signature)
      else false
