-- ===== src/Core/Types.antt =====
-- The data of src/core/transaction.rs, src/core/block.rs and src/crypto/keys.rs. Rust's newtypes over byte
-- arrays (TxId, KeyImage, PedersenCommitment, Bulletproof, BlockHash, PublicKey) are byte strings.
use cipher_x.Prelude.{ℕ, List, Bytes}

abbrev pub TxId : Type 0
TxId = Bytes

abbrev pub KeyImage : Type 0
KeyImage = Bytes

abbrev pub PedersenCommitment : Type 0
PedersenCommitment = Bytes

abbrev pub Bulletproof : Type 0
Bulletproof = Bytes

abbrev pub BlockHash : Type 0
BlockHash = Bytes

pub record StealthOutput : Type 0 where
  pub one_time_pubkey : Bytes
  pub tx_pubkey : Bytes
  pub amount_commitment : PedersenCommitment
  pub encrypted_amount : Bytes
  pub range_proof : Bulletproof

pub record RingInput : Type 0 where
  pub ring_members : List Bytes
  pub key_image : KeyImage
  pub ring_signature : Bytes
  pub pseudo_commitment : PedersenCommitment

pub data TxType : Type 0 where
  transfer coinbase stake_deposit lite stake_withdraw : TxType

pub record Transaction : Type 0 where
  pub tx_type : TxType
  pub inputs : List RingInput
  pub outputs : List StealthOutput
  pub fee_commitment : PedersenCommitment
  pub fee_proof : Bytes
  pub extra : Bytes
  pub version : ℕ  -- u8

pub record ValidatorCommitment : Type 0 where
  pub public_key : Bytes
  pub nullifier : Bytes

pub record BlockHeader : Type 0 where
  pub version : ℕ  -- u32
  pub height : ℕ  -- u64
  pub timestamp : ℕ  -- i64, by its bit pattern
  pub prev_hash : BlockHash
  pub tx_root : BlockHash
  pub state_root : BlockHash
  pub validator_commitment : ValidatorCommitment
  pub round : ℕ  -- u32

pub record ValidatorSignature : Type 0 where
  pub validator_commitment : ValidatorCommitment
  pub signature : Bytes

pub record Block : Type 0 where
  pub header : BlockHeader
  pub transactions : List Transaction
  pub signatures : List ValidatorSignature

-- LSAG signature of src/crypto/ring_sig.rs.
pub record RingSignature : Type 0 where
  pub c0 : Bytes
  pub s : List Bytes
  pub key_image : KeyImage

-- A stealth address of src/crypto/keys.rs.
pub record StealthAddress : Type 0 where
  pub public_spend : Bytes
  pub public_view : Bytes
