-- ===== src/Crypto/Ringct/OrProof.antt =====
-- One bit of a range proof of src/crypto/ringct.rs: the OR-proof that `build_or_proof` builds.
use cipher_x.Prelude.{ℕ, ◌≡◌, sym, true, is_yes, ◌==◌, Bool-cases, inl, inr, arith}
use cipher_x.Crates.{Crates}
use cipher_x.Crypto.Group.{GroupLaws, open_sum, scalar-add_sub, point-add_sub_left}
use cipher_x.Crypto.Ringct.{h_generator, or_proof_ok}
use cipher_x.Crypto.Ringct.Prove.{Nonces, or_proof_zero, or_proof_one, build_or_proof, bit_commit}

module _ {c : Crates} (laws : GroupLaws c) where
  open c use {
    Scalar, Scalar-discrete, scalar_add, scalar_sub, scalar_mul, Point, point_add, basepoint,
    point_sub, point_mul, compress,
  }

  ok_of_eq : (a b : Scalar) → a ≡ b → is_yes (Scalar-discrete a b) ≡ true
  ok_of_eq a b h = ground arith

  zero_ok :
      (r : Scalar) (n : Nonces c)
      → let p = or_proof_zero c (point_mul r basepoint) r (h_generator c) n in
        or_proof_ok c (point_mul r basepoint) p.e0 p.e1 p.s0 p.s1 ≡ true
  unfolding or_proof_ok or_proof_zero
  zero_ok r n = ok_of_eq _ _ (
      rw
        (open_sum laws n.k ((or_proof_zero c (point_mul r basepoint) r (h_generator c) n).e0) r
          basepoint)
        (sym (laws.scalar-sub_add _ n.e)))

  one_ok :
      (r : Scalar) (n : Nonces c)
      → let c_i = point_add (h_generator c) (point_mul r basepoint) in
        let p = or_proof_one c c_i r n in or_proof_ok c c_i p.e0 p.e1 p.s0 p.s1 ≡ true
  unfolding or_proof_ok or_proof_one
  one_ok r n = ok_of_eq _ _ (
      rw
        (
          point-add_sub_left laws (h_generator c) (point_mul r basepoint),
          open_sum laws n.k
              ((or_proof_one c (point_add (h_generator c) (point_mul r basepoint)) r n).e1) r
              basepoint,
        )
        (sym (scalar-add_sub laws n.e _)))

  -- The proof of a bit of either value is accepted.
  pub or_proof_ok-build_or_proof :
      (bit : ℕ) (r : Scalar) (n : Nonces c)
      → let c_i = bit_commit c bit r in
        let p = build_or_proof c bit c_i r (h_generator c) n in
        or_proof_ok c c_i p.e0 p.e1 p.s0 p.s1 ≡ true
  unfolding build_or_proof bit_commit
  or_proof_ok-build_or_proof bit r n = elim (Bool-cases (bit == 0)) [
    | inl e ↦ rw e (zero_ok r n)
    | inr e ↦ rw e (one_ok r n)
  ]
