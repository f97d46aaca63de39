-- ===== src/Core/Transaction/Coinbase.antt =====
-- src/core/transaction.rs: `build_coinbase`. Its random scalars are arguments: the transaction key, the
-- blinding, and those of the range proof. `none` is a panic of `commit_random`.
use cipher_x.Prelude.{
  ℕ, ◌<◌, ◌≡◌, refl, ◌++◌, Option, none, some, [], ◌∷◌, Bytes, length, replicate, true, u64_mod,
}
use cipher_x.Std.Encoding.{le_bytes, ascii}
use cipher_x.Std.Options.{◌>>=◌}
use cipher_x.Core.Types.{Transaction, StealthOutput, StealthAddress, Bulletproof, coinbase}
use cipher_x.Core.Transaction.{coinbase_placeholder}
use cipher_x.Crates.{Crates}
use cipher_x.Crypto.Group.{GroupLaws}
use cipher_x.Crypto.Amount.{AeadLaws, encrypt_amount, decrypt_amount, decrypt_amount-encrypt_amount}
use cipher_x.Crypto.Stealth.{generate_output, scan_output, derive_spend_key, generate_keypair}
use cipher_x.Crypto.Stealth.Scan.{scan_output-generate_output}
use cipher_x.Crypto.Ringct.{verify_range}
use cipher_x.Crypto.Ringct.Prove.{Nonces, prove_range}
use cipher_x.Crypto.Ringct.Build.{commit_random}
use cipher_x.Crypto.Ringct.Complete.{verify_range-prove_range}

-- `unwrap_or(Bulletproof(vec![]))`
abbrev pub proof_or_empty : Option Bulletproof → Bulletproof
proof_or_empty none = []
proof_or_empty (some p) = p

module _ (c : Crates) where
  open c use {Scalar}

  unfoldable pub build_coinbase :
      StealthAddress → ℕ → ℕ → Scalar → Scalar → (ℕ → Scalar) → (ℕ → Nonces c) → Option Transaction
  build_coinbase reward_address amount height r blinding random nonces =
      elim (generate_output c reward_address 0 r) [
        | none ↦ some (coinbase_placeholder height)
        | some stealth_out ↦ do
          commitment_data ← commit_random c amount blinding
          let range_proof =
              proof_or_empty (prove_range c amount commitment_data.blinding random nonces)
          let encrypted_amount = encrypt_amount c amount stealth_out.shared_secret
          let output : StealthOutput = record {
            one_time_pubkey = stealth_out.one_time_pubkey;
            tx_pubkey = stealth_out.tx_pubkey;
            amount_commitment = commitment_data.commitment;
            encrypted_amount = encrypted_amount;
            range_proof = range_proof;
          }
          some (record {
            tx_type = coinbase;
            inputs = [];
            outputs = output ∷ [];
            fee_commitment = replicate 32 0;
            fee_proof = [];
            extra = ascii "coinbase" ++ le_bytes 8 height;
            version = 1;
          })
      ]

module _ {c : Crates} (laws : GroupLaws c) (aead : AeadLaws c) where
  open c use {sha3_256, Scalar, scalar_to_bytes, compress, basepoint, point_mul}

  -- Digests of sha3_256 have 32 bytes. For a key pair from `generate_keypair` and a 64-bit amount,
  -- whatever the random scalars, `build_coinbase` for its address returns a transaction with one
  -- output. Its range proof is accepted, the view key finds it and decrypts the amount, and the
  -- spend key opens it.
  pub build_coinbase-reward :
      ((b : Bytes) → length (sha3_256 b) ≡ 32)
      → (spend view_random r blinding : Scalar) (random : ℕ → Scalar) (nonces : ℕ → Nonces c)
        (amount height : ℕ)
      → amount < u64_mod
      → let keys = generate_keypair c spend view_random in
        (tx : Transaction) × (out : StealthOutput) × (s : Scalar) × (x : Scalar) × (build_coinbase c
            keys.address amount height r blinding random nonces
          ≡ some tx)
        × (tx.outputs ≡ out ∷ [])
        × (verify_range c out.amount_commitment out.range_proof ≡ true)
        × (scan_output c out.tx_pubkey out.one_time_pubkey 0 keys.private_view keys.public_spend
            ≡ some (scalar_to_bytes s))
        × (decrypt_amount c out.encrypted_amount s ≡ some amount)
        × (derive_spend_key c (scalar_to_bytes s) keys.private_spend ≡ some (scalar_to_bytes x))
        × (compress (point_mul x basepoint) ≡ out.one_time_pubkey)
  unfolding build_coinbase commit_random
  build_coinbase-reward digest spend view_random r blinding random nonces amount height bound =
      let (out_keys, x, made, found, derived, opened) =
        scan_output-generate_output laws spend view_random r 0 in
      let (commitment, proof, committed, proved, verified) =
        verify_range-prove_range laws digest amount blinding random nonces bound in
      let out : StealthOutput = record {
        one_time_pubkey = out_keys.one_time_pubkey;
        tx_pubkey = out_keys.tx_pubkey;
        amount_commitment = commitment;
        encrypted_amount = encrypt_amount c amount out_keys.shared_secret;
        range_proof = proof;
      } in
      let tx : Transaction = record {
        tx_type = coinbase;
        inputs = [];
        outputs = out ∷ [];
        fee_commitment = replicate 32 0;
        fee_proof = [];
        extra = ascii "coinbase" ++ le_bytes 8 height;
        version = 1;
      } in
      (
        tx,
        out,
        out_keys.shared_secret,
        x,
        rw (build_coinbase, made, committed, proved) refl,
        refl,
        verified,
        found,
        decrypt_amount-encrypt_amount aead amount out_keys.shared_secret bound,
        derived,
        opened,
      )
