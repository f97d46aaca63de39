-- ===== src/Crypto/Ringct/Complete.antt =====
-- Range proofs of src/crypto/ringct.rs: `verify_range` on what `prove_range` returns.
use cipher_x.Prelude.{
  ℕ, ◌+◌, ◌*◌, ◌/◌, ◌^◌, ◌<◌, ◌≡◌, refl, ap, ◌∙◌, ◌++◌, true, some, List, [], map, Bytes,
  Bytes-discrete, length, arith, u64_mod, is_yes_of, length-append, take, drop-append, take_all,
}
use cipher_x.Std.Slices.{slice}
use cipher_x.Core.Types.{PedersenCommitment, Bulletproof}
use cipher_x.Crates.{Crates}
use cipher_x.Crypto.Group.{GroupLaws}
use cipher_x.Crypto.Ringct.{
  range_bits, per_bit, pedersen, commit, verify_bits, weighted_sum, range_tag, verify_range,
}
use cipher_x.Crypto.Ringct.Prove.{Nonces, commit_bits, prove_bits, prove_range}
use cipher_x.Crypto.Ringct.Reconstruct.{weighted_sum-commit_bits}
use cipher_x.Crypto.Ringct.Layout.{verify_bits-prove_bits, length-prove_bits}

module _ (c : Crates) where
  open c use {Point, decompress, compress, identity, scalar_one}

  -- The checks of `verify_range` that make it accept.
  verify_range-passed :
      (commitment : PedersenCommitment) (proof : Bulletproof) (outer : Point) (bits : List Point)
      → length proof ≡ range_bits * per_bit + 32
      → decompress commitment ≡ some outer
      → verify_bits c range_bits proof 0 ≡ some bits
      → weighted_sum c identity scalar_one bits ≡ outer
      → slice (range_bits * per_bit) 32 proof ≡ range_tag c commitment bits
      → verify_range c commitment proof ≡ true
  unfolding verify_range
  verify_range-passed commitment proof outer bits size eo eb sum tag =
      rw (size, eo, eb, sum, tag, is_yes_of (Bytes-discrete (compress outer) (compress outer)) refl)
        (is_yes_of (Bytes-discrete (range_tag c commitment bits) (range_tag c commitment bits))
          refl)

module _ {c : Crates} (laws : GroupLaws c) where
  open c use {
    sha3_256, Scalar, scalar_zero, scalar_one, scalar_from_u64, scalar_mul, scalar_to_bytes, Point,
    identity, point_add, compress, decompress,
  }

  length-range_tag :
      ((b : Bytes) → length (sha3_256 b) ≡ 32)
      → (commitment : PedersenCommitment) (bits : List Point)
      → length (range_tag c commitment bits) ≡ 32
  unfolding range_tag
  length-range_tag h commitment bits = h _

  -- The sum over all bits opens to the amount and the blinding.
  weighted_sum-amount :
      (amount : ℕ) (r : Scalar) (random : ℕ → Scalar)
      → amount < u64_mod
      → weighted_sum c identity scalar_one
          (map (λ b. b.0) (commit_bits c amount r random range_bits 0 scalar_zero scalar_one))
        ≡ pedersen c (scalar_from_u64 amount) r
  weighted_sum-amount amount r random bound =
      weighted_sum-commit_bits laws amount r random 63 0 scalar_zero scalar_one r identity bound
        refl laws.scalar-one_ne_zero (laws.scalar-zero_add r)
      ∙ laws.point-zero_add _
      ∙ ap (λ s. pedersen c s r)
          (laws.scalar-one_mul (scalar_from_u64 (amount / 2 ^ 0))
            ∙ ap scalar_from_u64 (omega arith))

  -- `prove_range` for a 64-bit amount and a blinding that is a scalar, with any random scalars,
  -- returns a proof, and `verify_range` accepts it for the commitment to the amount under that
  -- blinding. Digests of sha3_256 have 32 bytes.
  pub verify_range-prove_range :
      ((b : Bytes) → length (sha3_256 b) ≡ 32)
      → (amount : ℕ) (r : Scalar) (random : ℕ → Scalar) (nonces : ℕ → Nonces c) → amount < u64_mod
      → (commitment : PedersenCommitment) × (proof : Bulletproof) × (commit c amount
            (scalar_to_bytes r)
          ≡ some commitment)
        × (prove_range c amount (scalar_to_bytes r) random nonces ≡ some proof)
        × (verify_range c commitment proof ≡ true)
  unfolding commit prove_range
  verify_range-prove_range digest amount r random nonces bound =
      let outer = pedersen c (scalar_from_u64 amount) r in
      let commitment = compress outer in
      let bits = commit_bits c amount r random range_bits 0 scalar_zero scalar_one in
      let cs = map (λ b. b.0) bits in
      let body = prove_bits c amount nonces 0 bits in
      let tag = range_tag c commitment cs in
      let size =
        length-prove_bits laws amount r random nonces range_bits 0 scalar_zero scalar_one in
      let tag_size = length-range_tag digest commitment cs in
      (
        commitment,
        body ++ tag,
        rw (laws.from_canonical-to_bytes r) refl,
        rw (laws.from_canonical-to_bytes r) refl,
        verify_range-passed c commitment (body ++ tag) outer cs
            (length-append body tag ∙ rw (size, tag_size) refl) (laws.decompress-compress outer)
            (verify_bits-prove_bits laws amount r random nonces range_bits 0 scalar_zero scalar_one
              [] tag 0 refl)
            (weighted_sum-amount amount r random bound)
            (ap (take 32) (drop-append (range_bits * per_bit) body tag size)
              ∙ take_all 32 tag tag_size),
      )
