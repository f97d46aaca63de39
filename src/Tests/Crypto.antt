-- ===== src/Tests/Crypto.antt =====
-- Runs of the cryptography over the field of three elements.
use cipher_x.Prelude.{ℕ, ◌≡◌, ◌≢◌, refl, true, some, [], ◌∷◌, Bytes, List, arith}
use cipher_x.Core.Types.{RingSignature, PedersenCommitment, Bulletproof}
use cipher_x.Core.Types.{Transaction, StealthOutput}
use cipher_x.Core.Transaction.Coinbase.{build_coinbase, build_coinbase-reward}
use cipher_x.Crypto.Amount.{decrypt_amount}
use cipher_x.Crypto.Stealth.{
  StealthOutputKeys, generate_output, scan_output, derive_spend_key, generate_keypair,
}
use cipher_x.Crypto.Stealth.Scan.{scan_output-generate_output}
use cipher_x.Crypto.RingSig.{hash_to_point, verify}
use cipher_x.Crypto.RingSig.Sign.{sign}
use cipher_x.Crypto.RingSig.Complete.{verify-sign}
use cipher_x.Crypto.Ringct.{commit, verify_range, verify_balance}
use cipher_x.Crypto.Ringct.Prove.{Nonces, prove_range}
use cipher_x.Crypto.Ringct.Complete.{verify_range-prove_range}
use cipher_x.Crypto.Ringct.Build.{TxCommitments, build_tx_commitments}
use cipher_x.Crypto.Ringct.Balance.{verify_balance-build_tx_commitments}
use cipher_x.Tests.Field.{F3, mul, o, i, t, encode, field, field-GroupLaws, field-AeadLaws}

scan_output-generate_output_example :
    (keys : StealthOutputKeys field) × (x : F3) × (generate_output field
        ((generate_keypair field t i).address)
        5
        t
      ≡ some keys)
    × (scan_output field keys.tx_pubkey keys.one_time_pubkey 5
          ((generate_keypair field t i).private_view)
          ((generate_keypair field t i).public_spend)
        ≡ some (encode keys.shared_secret))
    × (derive_spend_key field
          (encode keys.shared_secret)
          ((generate_keypair field t i).private_spend)
        ≡ some (encode x))
    × (encode (mul x i) ≡ keys.one_time_pubkey)
scan_output-generate_output_example = scan_output-generate_output field-GroupLaws t i t 5

abbrev ring_of_three : List Bytes
ring_of_three = encode o ∷ encode t ∷ encode i ∷ []

key_image_ne : mul t (hash_to_point field (encode t)) ≢ o
unfolding hash_to_point
key_image_ne e = ground arith

verify-sign_example :
    (sig : RingSignature) × (sign field (7 ∷ []) ring_of_three 1 (encode t) i (o ∷ i ∷ t ∷ [])
      ≡ some (sig, sig.key_image))
    × (verify field (7 ∷ []) ring_of_three sig ≡ true)
    × (sig.key_image ≡ encode (mul t (hash_to_point field (encode t))))
unfolding cipher_x.Std.Options.collect
verify-sign_example =
    verify-sign field-GroupLaws (7 ∷ []) ring_of_three 1 t i (o ∷ i ∷ t ∷ []) (o ∷ t ∷ i ∷ [])
      (omega arith) refl refl refl key_image_ne

abbrev zero_nonces : ℕ → Nonces field
zero_nonces n = record { k = i; e = t; s = o }

abbrev always_two : ℕ → F3
always_two n = t

verify_range-prove_range_example :
    (commitment : PedersenCommitment) × (proof : Bulletproof) × (commit field 12345 (encode i)
      ≡ some commitment)
    × (prove_range field 12345 (encode i) always_two zero_nonces ≡ some proof)
    × (verify_range field commitment proof ≡ true)
verify_range-prove_range_example =
    verify_range-prove_range field-GroupLaws (λ b. refl) 12345 i always_two zero_nonces
      (omega arith)

verify_balance-build_tx_commitments_example :
    (tc : TxCommitments) × (build_tx_commitments field
        (10 ∷ 5 ∷ [])
        (12 ∷ [])
        3
        always_two
        always_two
      ≡ some tc)
    × (verify_balance field tc.input_pseudo_commitments tc.output_commitments tc.fee_commitment
        ≡ true)
verify_balance-build_tx_commitments_example =
    verify_balance-build_tx_commitments field-GroupLaws (10 ∷ 5 ∷ []) (12 ∷ []) 3 always_two
      always_two refl (omega arith)

build_coinbase-reward_example :
    (tx : Transaction) × (out : StealthOutput) × (s : F3) × (x : F3) × (build_coinbase field
        ((generate_keypair field t i).address)
        864
        9
        t
        i
        always_two
        zero_nonces
      ≡ some tx)
    × (tx.outputs ≡ out ∷ [])
    × (verify_range field out.amount_commitment out.range_proof ≡ true)
    × (scan_output field out.tx_pubkey out.one_time_pubkey 0
          ((generate_keypair field t i).private_view)
          ((generate_keypair field t i).public_spend)
        ≡ some (encode s))
    × (decrypt_amount field out.encrypted_amount s ≡ some 864)
    × (derive_spend_key field (encode s) ((generate_keypair field t i).private_spend)
        ≡ some (encode x))
    × (encode (mul x i) ≡ out.one_time_pubkey)
build_coinbase-reward_example =
    build_coinbase-reward field-GroupLaws field-AeadLaws (λ b. refl) t i t i always_two zero_nonces
      864 9 (omega arith)
