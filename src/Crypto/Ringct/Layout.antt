-- ===== src/Crypto/Ringct/Layout.antt =====
-- The bytes of a range proof of src/crypto/ringct.rs: `prove_range` writes what `verify_range` reads.
use mathlib.Core.List.{append_assoc}
use cipher_x.Prelude.{
  ℕ, zero, suc, ◌+◌, ◌*◌, ◌≡◌, refl, ◌∙◌, ◌++◌, true, some, List, [], ◌∷◌, map, Bytes, length, All,
  arith, length-append,
}
use cipher_x.Std.Slices.{slice-blocks}
use cipher_x.Crates.{Crates}
use cipher_x.Crypto.Group.{GroupLaws}
use cipher_x.Crypto.Ringct.{h_generator, per_bit, or_proof_ok, verify_bit, verify_bits}
use cipher_x.Crypto.Ringct.Prove.{
  OrProof, Nonces, bit_at, bit_commit, build_or_proof, commit_bits, bit_bytes, prove_bits,
}
use cipher_x.Crypto.Ringct.OrProof.{or_proof_ok-build_or_proof}

next_offset :
    (pre chunk : Bytes) (off : ℕ)
    → off ≡ length pre
    → length chunk ≡ per_bit
    → off + per_bit ≡ length (pre ++ chunk)
next_offset pre chunk off h size = omega (arith, length-append pre chunk)

module _ {c : Crates} (laws : GroupLaws c) where
  open c use {Scalar, Point, compress, decompress, scalar_to_bytes, scalar_from_canonical}

  bit_bytes-append :
      (c_i : Point) (p : OrProof c) (x : Bytes)
      → bit_bytes c c_i p ++ x
        ≡ compress c_i
          ++ (scalar_to_bytes p.e0
              ++ (scalar_to_bytes p.e1 ++ (scalar_to_bytes p.s0 ++ (scalar_to_bytes p.s1 ++ x))))
  unfolding bit_bytes
  bit_bytes-append c_i p x = simp append_assoc

  length-bit_bytes : (c_i : Point) (p : OrProof c) → length (bit_bytes c c_i p) ≡ per_bit
  unfolding bit_bytes
  length-bit_bytes c_i p = simp (length-append, laws.length-compress, laws.length-to_bytes)

  -- What `verify_bit` reads at the start of a bit's bytes.
  verify_bit-bit_bytes :
      (pre x : Bytes) (off : ℕ) (c_i : Point) (p : OrProof c)
      → off ≡ length pre
      → or_proof_ok c c_i p.e0 p.e1 p.s0 p.s1 ≡ true
      → verify_bit c (pre ++ (bit_bytes c c_i p ++ x)) off ≡ some c_i
  unfolding verify_bit
  verify_bit-bit_bytes pre x off c_i p at_off ok =
      let bs =
        compress c_i
        ∷ scalar_to_bytes p.e0
        ∷ scalar_to_bytes p.e1
        ∷ scalar_to_bytes p.s0
        ∷ scalar_to_bytes p.s1
        ∷ [] in
      let sizes : All (λ y. length y ≡ 32) bs = (
        laws.length-compress c_i,
        (
          laws.length-to_bytes p.e0,
          (laws.length-to_bytes p.e1, (laws.length-to_bytes p.s0, (laws.length-to_bytes p.s1, tt))),
        ),
      ) in
      rw
        (
          bit_bytes-append c_i p x,
          slice-blocks pre bs x (compress c_i) 0 off sizes refl (omega arith),
          slice-blocks pre bs x (scalar_to_bytes p.e0) 1 (off + 32) sizes refl (omega arith),
          slice-blocks pre bs x (scalar_to_bytes p.e1) 2 (off + 64) sizes refl (omega arith),
          slice-blocks pre bs x (scalar_to_bytes p.s0) 3 (off + 96) sizes refl (omega arith),
          slice-blocks pre bs x (scalar_to_bytes p.s1) 4 (off + 128) sizes refl (omega arith),
          laws.decompress-compress c_i,
          laws.from_canonical-to_bytes p.e0,
          laws.from_canonical-to_bytes p.e1,
          laws.from_canonical-to_bytes p.s0,
          laws.from_canonical-to_bytes p.s1,
          ok,
        )
        refl

  verify_bits_step :
      (n off : ℕ) (pre chunk rest tail : Bytes) (c_i : Point) (cs : List Point)
      → verify_bit c (pre ++ (chunk ++ (rest ++ tail))) off ≡ some c_i
      → verify_bits c n ((pre ++ chunk) ++ (rest ++ tail)) (off + per_bit) ≡ some cs
      → verify_bits c (suc n) (pre ++ ((chunk ++ rest) ++ tail)) off ≡ some (c_i ∷ cs)
  unfolding verify_bits
  verify_bits_step n off pre chunk rest tail c_i cs head later =
      rw (append_assoc chunk rest tail, head, rw (append_assoc pre chunk (rest ++ tail)) at later)
        refl

  -- Reading back the bits that are written from bit `i` on.
  pub verify_bits-prove_bits :
      (amount : ℕ) (r_total : Scalar) (random : ℕ → Scalar) (nonces : ℕ → Nonces c) (n i : ℕ)
      (acc_r pow : Scalar) (pre tail : Bytes) (off : ℕ)
      → off ≡ length pre
      → let bits = commit_bits c amount r_total random n i acc_r pow in
        verify_bits c n (pre ++ (prove_bits c amount nonces i bits ++ tail)) off
        ≡ some (map (λ b. b.0) bits)
  unfolding verify_bits prove_bits commit_bits
  verify_bits-prove_bits amount r_total random nonces zero i acc_r pow pre tail off h = refl
  verify_bits-prove_bits amount r_total random nonces (suc n) i acc_r pow pre tail off h =
      let p =
        build_or_proof c (bit_at amount i) (bit_commit c (bit_at amount i) _) _ (h_generator c)
          (nonces i) in
      verify_bits_step n off pre _ _ tail _ _
        (verify_bit-bit_bytes pre _ off _ p h
          (or_proof_ok-build_or_proof laws (bit_at amount i) _ (nonces i)))
        (verify_bits-prove_bits amount r_total random nonces n (suc i) _ _ (pre ++ bit_bytes c _ p)
          tail (off + per_bit) (next_offset pre (bit_bytes c _ p) off h (length-bit_bytes _ p)))

  -- The length of what is written.
  pub length-prove_bits :
      (amount : ℕ) (r_total : Scalar) (random : ℕ → Scalar) (nonces : ℕ → Nonces c) (n i : ℕ)
      (acc_r pow : Scalar)
      → length (prove_bits c amount nonces i (commit_bits c amount r_total random n i acc_r pow))
        ≡ n * per_bit
  unfolding prove_bits commit_bits
  length-prove_bits amount r_total random nonces zero i acc_r pow = refl
  length-prove_bits amount r_total random nonces (suc n) i acc_r pow =
      length-append (bit_bytes c _ _) _
      ∙ rw (length-bit_bytes _ _, length-prove_bits amount r_total random nonces n (suc i) _ _)
          (omega arith)
