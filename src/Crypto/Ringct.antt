-- ===== src/Crypto/Ringct.antt =====
-- src/crypto/ringct.rs: Pedersen commitments, the balance check and the range-proof verifier.
pub mod Prove
mod OrProof
mod Reconstruct
mod Layout
pub mod Complete
pub mod Build
pub mod Balance
use mathlib.Core.List.{foldl}
use cipher_x.Prelude.{
  ℕ, zero, suc, ◌+◌, ◌*◌, ◌++◌, Bool, false, ◌||◌, ◌&&◌, Option, none, some, List, [], ◌∷◌, Bytes,
  Bytes-discrete, length, take, drop, replicate, ◌==◌, if◌then◌else◌, is_yes, map,
}
use cipher_x.Std.Encoding.{ascii}
use cipher_x.Std.Slices.{slice}
use cipher_x.Std.Options.{◌>>=◌, collect}
use cipher_x.Core.Types.{PedersenCommitment, Bulletproof}
use cipher_x.Crates.{Crates}

abbrev pub range_bits : ℕ
range_bits = 64

-- The bytes of one bit's proof: the commitment, e0, e1, s0 and s1.
abbrev pub per_bit : ℕ
per_bit = 32 * 5

-- The bytes of a list of digests, one after the other.
abbrev pub concat : List Bytes → Bytes
concat [] = []
concat (b ∷ bs) = b ++ concat bs

module _ (c : Crates) where
  open c use {
    sha3_256, sha3_512, Scalar, Scalar-discrete, scalar_zero, scalar_one, scalar_add, scalar_sub,
    scalar_mul, scalar_from_u64, scalar_from_canonical, scalar_from_wide, scalar_to_bytes, Point,
    Point-discrete, identity, basepoint, point_add, point_sub, point_mul, compress, decompress,
    point_from_uniform,
  }

  -- H, the second generator; the `OnceLock` only caches it.
  unfoldable pub h_generator : Point
  h_generator = point_from_uniform (sha3_512 (ascii "CipherX_Pedersen_H_generator_v1"))

  -- v·H + r·G
  unfoldable pub pedersen : Scalar → Scalar → Point
  pedersen v r = point_add (point_mul v h_generator) (point_mul r basepoint)

  unfoldable pub commit : ℕ → Bytes → Option PedersenCommitment
  commit amount blinding = do
    r ← scalar_from_canonical blinding
    some (compress (pedersen (scalar_from_u64 amount) r))

  unfoldable pub commit_zero : Bytes → Option PedersenCommitment
  unfolding commit
  commit_zero blinding = commit 0 blinding

  -- The end of `verify_balance`, on the decompressed points.
  unfoldable pub balanced : List Point → List Point → Point → Bool
  balanced inputs outputs fee =
      let diff = point_sub (foldl point_add identity inputs) (foldl point_add fee outputs) in
      is_yes (Bytes-discrete (compress diff) (replicate 32 0))
      || is_yes (Point-discrete diff identity)

  unfoldable pub verify_balance :
      List PedersenCommitment → List PedersenCommitment → PedersenCommitment → Bool
  unfolding balanced
  verify_balance inputs outputs fee = elim (collect decompress inputs) [
    | none ↦ false
    | some is ↦ elim (collect decompress outputs) [
      | none ↦ false
      | some os ↦ elim (decompress fee) [ none ↦ false | some f ↦ balanced is os f ]
    ]
  ]

  -- The loops of `compute_fee_blinding`.
  unfoldable pub sum_blindings : Scalar → List Bytes → Option Scalar
  sum_blindings acc [] = some acc
  sum_blindings acc (b ∷ bs) = do s ← scalar_from_canonical b; sum_blindings (scalar_add acc s) bs

  unfoldable pub compute_fee_blinding : List Bytes → List Bytes → Option Bytes
  unfolding sum_blindings
  compute_fee_blinding inputs outputs = do
    sum_in ← sum_blindings scalar_zero inputs
    sum_out ← sum_blindings scalar_zero outputs
    some (scalar_to_bytes (scalar_sub sum_in sum_out))

  unfoldable pub hash_to_scalar : List Bytes → Scalar
  hash_to_scalar parts = scalar_from_wide (sha3_512 (ascii "CipherX_range_v1" ++ concat parts))

  -- The test of one bit's OR-proof.
  unfoldable pub or_proof_ok : Point → Scalar → Scalar → Scalar → Scalar → Bool
  unfolding h_generator hash_to_scalar
  or_proof_ok c_i e0 e1 s0 s1 =
      let a0 = point_sub (point_mul s0 basepoint) (point_mul e0 c_i) in
      let a1 = point_sub (point_mul s1 basepoint) (point_mul e1 (point_sub c_i h_generator)) in
      let e_total = hash_to_scalar (compress c_i ∷ compress a0 ∷ compress a1 ∷ []) in
      is_yes (Scalar-discrete e_total (scalar_add e0 e1))

  -- One round of the per-bit loop, at offset `off`; `none` is `return false`.
  unfoldable pub verify_bit : Bytes → ℕ → Option Point
  unfolding or_proof_ok
  verify_bit proof off = do
    c_i ← decompress (slice off 32 proof)
    e0 ← scalar_from_canonical (slice (off + 32) 32 proof)
    e1 ← scalar_from_canonical (slice (off + 64) 32 proof)
    s0 ← scalar_from_canonical (slice (off + 96) 32 proof)
    s1 ← scalar_from_canonical (slice (off + 128) 32 proof)
    if or_proof_ok c_i e0 e1 s0 s1 then some c_i else none

  unfoldable pub verify_bits : ℕ → Bytes → ℕ → Option (List Point)
  unfolding verify_bit
  verify_bits zero proof off = some []
  verify_bits (suc n) proof off = do
    c_i ← verify_bit proof off
    rest ← verify_bits n proof (off + per_bit)
    some (c_i ∷ rest)

  -- Σ 2^i · C_i, from `acc` and the power `pow`.
  unfoldable pub weighted_sum : Point → Scalar → List Point → Point
  weighted_sum acc pow [] = acc
  weighted_sum acc pow (c_i ∷ rest) =
      weighted_sum (point_add acc (point_mul pow c_i)) (scalar_mul pow (scalar_from_u64 2)) rest

  -- The consistency tag that binds the bit commitments to the outer commitment.
  unfoldable pub range_tag : PedersenCommitment → List Point → Bytes
  range_tag commitment bit_commits =
      sha3_256 (ascii "CipherX_range_tag_v1" ++ (commitment ++ concat (map compress bit_commits)))

  unfoldable pub verify_range : PedersenCommitment → Bulletproof → Bool
  unfolding verify_bits weighted_sum range_tag
  verify_range commitment proof =
      if length proof == range_bits * per_bit + 32
      then elim (decompress commitment) [
        | none ↦ false
        | some outer ↦ elim (verify_bits range_bits proof 0) [
          | none ↦ false
          | some bit_commits ↦
              is_yes (
                Bytes-discrete (compress (weighted_sum identity scalar_one bit_commits))
                  (compress outer))
              && is_yes (
                  Bytes-discrete (range_tag commitment bit_commits)
                    (slice (range_bits * per_bit) 32 proof))
        ]
      ]
      else false
