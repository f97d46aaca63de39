-- ===== src/Core/Transaction.antt =====
-- src/core/transaction.rs: identity and verification of transactions.
pub mod Coinbase
use cipher_x.Prelude.{
  ℕ, Bool, true, false, ◌&&◌, List, [], ◌∷◌, Bytes, map, all, replicate, Option, some, none, length,
  ◌==◌, if◌then◌else◌,
}
use cipher_x.Std.Encoding.{le_bytes}
use cipher_x.Std.Options.{◌>>=◌}
use cipher_x.Core.Types.{Transaction, TxId, KeyImage, StealthOutput, coinbase, lite}
use cipher_x.Crates.{Crates}
use cipher_x.Crypto.Ringct.{verify_range}
use cipher_x.Crypto.Ringct
use cipher_x.Crypto.RingSig.{verify_ring}

-- A placeholder coinbase: zero keys, the height in clear.
unfoldable pub coinbase_placeholder : ℕ → Transaction
coinbase_placeholder height = record {
  tx_type = coinbase;
  inputs = [];
  outputs = output ∷ [];
  fee_commitment = replicate 32 0;
  fee_proof = [];
  extra = [];
  version = 1;
}
  where
    output : StealthOutput
    output = record {
      one_time_pubkey = replicate 32 0;
      tx_pubkey = replicate 32 0;
      amount_commitment = replicate 32 0;
      encrypted_amount = le_bytes 8 height;
      range_proof = [];
    }

unfoldable pub key_images : Transaction → List KeyImage
key_images tx = map (λ i. i.key_image) tx.inputs

-- `tx.tx_type == TxType::Coinbase`
abbrev pub is_coinbase : Transaction → Bool
is_coinbase tx = elim tx.tx_type [ coinbase ↦ true | _ ↦ false ]

module _ (c : Crates) where
  open c use {sha3_256, serialize_transaction}

  unfoldable pub commitment_hash : Transaction → Bytes
  commitment_hash tx = sha3_256 (serialize_transaction tx)

  unfoldable pub id : Transaction → TxId
  unfolding commitment_hash
  id tx = commitment_hash tx

  unfoldable pub verify_balance : Transaction → Bool
  verify_balance tx =
      Ringct.verify_balance c (map (λ i. i.pseudo_commitment) tx.inputs)
        (map (λ o. o.amount_commitment) tx.outputs) tx.fee_commitment

  unfoldable pub verify_ring_signatures : Transaction → Bool
  unfolding commitment_hash
  verify_ring_signatures tx =
      let msg = commitment_hash tx in
      all (λ i. verify_ring c msg i.ring_members i.ring_signature i.key_image) tx.inputs

  unfoldable pub verify_range_proofs : Transaction → Bool
  verify_range_proofs tx = all (λ o. verify_range c o.amount_commitment o.range_proof) tx.outputs

  -- `&&` of the three checks.
  unfoldable pub verify_proofs : Transaction → Bool
  unfolding verify_balance verify_ring_signatures verify_range_proofs
  verify_proofs tx = verify_balance tx && (verify_ring_signatures tx && verify_range_proofs tx)

  unfoldable pub verify : Transaction → Bool
  unfolding verify_proofs
  verify tx = elim tx.tx_type [ coinbase ↦ true | lite ↦ true | _ ↦ verify_proofs tx ]

-- What serde_json reads of a lite transaction: its fields in hexadecimal.
pub record LiteRaw : Type 0 where
  pub tx_pubkey : Bytes
  pub one_time_pubkey : Bytes
  pub encrypted_amount : Bytes

-- `try_into` an array of 32 bytes.
abbrev pub array_32 : Bytes → Option Bytes
array_32 b = if length b == 32 then some b else none

-- The transaction of its keys, its encrypted amount and the text.
unfoldable pub lite_transaction : Bytes → Bytes → Bytes → Bytes → Transaction
lite_transaction tx_pk ot_pk enc_amt json_str = record {
  tx_type = lite;
  inputs = [];
  outputs = output ∷ [];
  fee_commitment = replicate 32 0;
  fee_proof = [];
  extra = json_str;
  version = 1;
}
  where
    output : StealthOutput
    output = record {
      one_time_pubkey = ot_pk;
      tx_pubkey = tx_pk;
      amount_commitment = replicate 32 0;
      encrypted_amount = enc_amt;
      range_proof = [];
    }

-- With the parser of serde_json and the decoder of hex.
unfoldable pub from_lite_raw :
    (Bytes → Option LiteRaw) → (Bytes → Option Bytes) → Bytes → Option Transaction
unfolding lite_transaction
from_lite_raw from_str decode json_str = do
  raw ← from_str json_str
  tx_bytes ← decode raw.tx_pubkey
  tx_pk ← array_32 tx_bytes
  ot_bytes ← decode raw.one_time_pubkey
  ot_pk ← array_32 ot_bytes
  enc_amt ← decode raw.encrypted_amount
  some (lite_transaction tx_pk ot_pk enc_amt json_str)
