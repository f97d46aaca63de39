-- ===== src/Crypto/Ringct/Build.antt =====
-- src/crypto/ringct.rs: `commit_random` and `build_tx_commitments`. The random blindings are functions of
-- the position; `none` is a panic of `commit_random` or the `None` of the code.
use cipher_x.Prelude.{ℕ, suc, Option, some, List, [], ◌∷◌, map, Bytes}
use cipher_x.Std.Options.{◌>>=◌}
use cipher_x.Core.Types.{PedersenCommitment}
use cipher_x.Crates.{Crates}
use cipher_x.Crypto.Ringct.{commit, compute_fee_blinding}

pub record CommitmentWithBlinding : Type 0 where
  pub commitment : PedersenCommitment
  pub blinding : Bytes
  pub amount : ℕ

pub record TxCommitments : Type 0 where
  pub input_pseudo_commitments : List PedersenCommitment
  pub input_blindings : List Bytes
  pub output_commitments : List PedersenCommitment
  pub output_blindings : List Bytes
  pub fee_commitment : PedersenCommitment
  pub fee_blinding : Bytes

module _ (c : Crates) where
  open c use {Scalar, scalar_to_bytes}

  unfoldable pub commit_random : ℕ → Scalar → Option CommitmentWithBlinding
  commit_random amount r = do
    let blinding = scalar_to_bytes r
    commitment ← commit c amount blinding
    some (record { commitment = commitment; blinding = blinding; amount = amount })

  -- The loops over the amounts, from position `i` on.
  unfoldable pub commit_all : (ℕ → Scalar) → ℕ → List ℕ → Option (List CommitmentWithBlinding)
  unfolding commit_random
  commit_all random i [] = some []
  commit_all random i (amount ∷ amounts) = do
    x ← commit_random amount (random i)
    rest ← commit_all random (suc i) amounts
    some (x ∷ rest)

  unfoldable pub build_tx_commitments :
      List ℕ → List ℕ → ℕ → (ℕ → Scalar) → (ℕ → Scalar) → Option TxCommitments
  unfolding commit_all
  build_tx_commitments input_amounts output_amounts fee random_in random_out = do
    inputs ← commit_all random_in 0 input_amounts
    outputs ← commit_all random_out 0 output_amounts
    let input_blindings = map (λ x. x.blinding) inputs
    let output_blindings = map (λ x. x.blinding) outputs
    fee_blinding ← compute_fee_blinding c input_blindings output_blindings
    fee_commitment ← commit c fee fee_blinding
    some (record {
      input_pseudo_commitments = map (λ x. x.commitment) inputs;
      input_blindings = input_blindings;
      output_commitments = map (λ x. x.commitment) outputs;
      output_blindings = output_blindings;
      fee_commitment = fee_commitment;
      fee_blinding = fee_blinding;
    })
