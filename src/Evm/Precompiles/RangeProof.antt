-- ===== src/Evm/Precompiles/RangeProof.antt =====
-- The Pedersen and range-proof precompiles of src/evm/precompiles.rs on what a prover makes.
use cipher_x.Prelude.{
  ℕ, ◌≡◌, ◌≤◌, ◌<◌, refl, sym, ap, ◌∙◌, ◌++◌, true, false, some, Bytes, length, length-append,
  take-append, drop-append, take_all, u64_mod, arith,
}
use cipher_x.Std.Encoding.{be_bytes, length-be_bytes, of_be_bytes-be_bytes}
use cipher_x.Core.Types.{PedersenCommitment, Bulletproof}
use cipher_x.Crates.{Crates}
use cipher_x.Crypto.Group.{GroupLaws}
use cipher_x.Crypto.Ringct.{commit, pedersen, verify_range}
use cipher_x.Crypto.Ringct.Prove.{Nonces, prove_range}
use cipher_x.Crypto.Ringct.Complete.{verify_range-prove_range}
use cipher_x.Evm.Precompiles.{
  result_ok, refused, bool_word, gas_pedersen_commit, gas_bulletproof_vfy,
  precompile_pedersen_commit, precompile_bulletproof_verify, call_precompile,
}

not_refused :
    (gas gas_limit size : ℕ) (input : Bytes)
    → gas ≤ gas_limit
    → size ≤ length input
    → refused gas gas_limit size input ≡ false
unfolding refused
not_refused gas gas_limit size input h k = ground arith

module _ (c : Crates) where
  -- The Pedersen precompile on an amount and a blinding.
  pedersen_word :
      (amount gas_limit : ℕ) (blinding : Bytes) (commitment : PedersenCommitment)
      → amount < u64_mod
      → length blinding ≡ 32
      → gas_pedersen_commit ≤ gas_limit
      → commit c amount blinding ≡ some commitment
      → call_precompile c 259 (be_bytes 8 amount ++ blinding) gas_limit
        ≡ some (result_ok commitment gas_pedersen_commit)
  unfolding call_precompile precompile_pedersen_commit
  pedersen_word amount gas_limit blinding commitment bound size gas e =
      let head = length-be_bytes 8 amount in
      let total = length-append (be_bytes 8 amount) blinding in
      rw
        (
          not_refused gas_pedersen_commit gas_limit 40 (be_bytes 8 amount ++ blinding) gas
              (omega arith),
          take-append 8 (be_bytes 8 amount) blinding head,
          drop-append 8 (be_bytes 8 amount) blinding head,
          take_all 32 blinding size,
          of_be_bytes-be_bytes 8 amount bound,
          e,
        )
        refl

  -- The range-proof precompile on a commitment and a proof that verify.
  proof_word :
      (gas_limit : ℕ) (commitment : PedersenCommitment) (proof : Bulletproof)
      → length commitment ≡ 32
      → gas_bulletproof_vfy ≤ gas_limit
      → verify_range c commitment proof ≡ true
      → call_precompile c 260 (commitment ++ proof) gas_limit
        ≡ some (result_ok (bool_word true) gas_bulletproof_vfy)
  unfolding call_precompile precompile_bulletproof_verify
  proof_word gas_limit commitment proof size gas e =
      let total = length-append commitment proof in
      rw
        (
          not_refused gas_bulletproof_vfy gas_limit 32 (commitment ++ proof) gas (omega arith),
          take-append 32 commitment proof size,
          drop-append 32 commitment proof size,
          e,
        )
        refl

module _ {c : Crates} (laws : GroupLaws c) where
  open c use {sha3_256, Scalar, scalar_from_u64, scalar_to_bytes, compress}

  length-commit :
      (amount : ℕ) (r : Scalar) (commitment : PedersenCommitment)
      → commit c amount (scalar_to_bytes r) ≡ some commitment
      → length commitment ≡ 32
  unfolding commit
  length-commit amount r commitment e =
      let same : compress (pedersen c (scalar_from_u64 amount) r) ≡ commitment =
        ground (arith, rw (laws.from_canonical-to_bytes r) at e) in
      ap length (sym same) ∙ laws.length-compress (pedersen c (scalar_from_u64 amount) r)

  -- Digests of sha3_256 have 32 bytes. For a 64-bit amount and a blinding that is a scalar, given
  -- the gas that each costs: precompile 0x103 returns a commitment, `prove_range` returns a proof,
  -- whatever its random scalars, and precompile 0x104 returns the word 1 for the two.
  pub call_precompile-prove_range :
      ((b : Bytes) → length (sha3_256 b) ≡ 32)
      → (amount commit_gas proof_gas : ℕ) (r : Scalar) (random : ℕ → Scalar) (nonces : ℕ → Nonces c)
      → amount < u64_mod
      → gas_pedersen_commit ≤ commit_gas
      → gas_bulletproof_vfy ≤ proof_gas
      → (commitment : PedersenCommitment) × (proof : Bulletproof) × (call_precompile c 259
            (be_bytes 8 amount ++ scalar_to_bytes r)
            commit_gas
          ≡ some (result_ok commitment gas_pedersen_commit))
        × (prove_range c amount (scalar_to_bytes r) random nonces ≡ some proof)
        × (call_precompile c 260 (commitment ++ proof) proof_gas
            ≡ some (result_ok (bool_word true) gas_bulletproof_vfy))
  call_precompile-prove_range digest amount commit_gas proof_gas r random nonces bound g1 g2 =
      let (commitment, proof, committed, proved, verified) =
        verify_range-prove_range laws digest amount r random nonces bound in
      (
        commitment,
        proof,
        pedersen_word c amount commit_gas (scalar_to_bytes r) commitment bound
            (laws.length-to_bytes r) g1 committed,
        proved,
        proof_word c proof_gas commitment proof (length-commit amount r commitment committed) g2
            verified,
      )
