-- ===== src/Crypto/Ringct/Reconstruct.antt =====
-- The weighted sum of the bit commitments of src/crypto/ringct.rs `prove_range`.
use native.Mathlib.Nat.{div-div-eq-div-mul, pow-suc, div-le_self}
use cipher_x.Prelude.{
  ℕ, zero, suc, ◌+◌, ◌-◌, ◌*◌, ◌/◌, ◌^◌, ◌<◌, ◌≡◌, ◌≢◌, sym, ap, ◌∙◌, map, ltb, true, false, arith,
  u64_mod,
}
use cipher_x.Crates.{Crates}
use cipher_x.Crypto.Group.{GroupLaws, scalar-add_sub, point-add_add}
use cipher_x.Crypto.Ringct.{range_bits, h_generator, pedersen, weighted_sum}
use cipher_x.Crypto.Ringct.Prove.{bit_at, bit_commit, commit_bits}

-- The bits of an amount from bit `i` on.
shift_step : (amount i : ℕ) → amount / 2 ^ i ≡ bit_at amount i + 2 * (amount / 2 ^ suc i)
unfolding bit_at
shift_step amount i =
    omega (arith, div-div-eq-div-mul amount (2 ^ i) 2, ap (λ m. amount / m) (pow-suc 2 i))

is_last : (i : ℕ) → i + 1 ≡ range_bits → ltb i (range_bits - 1) ≡ false
is_last i h = ground arith

is_early : (n i : ℕ) → i + suc (suc n) ≡ range_bits → ltb i (range_bits - 1) ≡ true
is_early n i h = ground arith

module _ {c : Crates} (laws : GroupLaws c) where
  open c use {
    Scalar, scalar_zero, scalar_one, scalar_add, scalar_sub, scalar_mul, scalar_from_u64,
    scalar_invert, Point, identity, basepoint, point_add, point_mul,
  }

  pub scalar-add_zero : (a : Scalar) → scalar_add a scalar_zero ≡ a
  scalar-add_zero a = laws.scalar-add_comm a scalar_zero ∙ laws.scalar-zero_add a

  scalar-add_cancel : (a b d : Scalar) → scalar_add a d ≡ scalar_add b d → a ≡ b
  scalar-add_cancel a b d h =
      sym (back a) ∙ ap (λ x. scalar_add x (scalar_sub scalar_zero d)) h ∙ back b
    where
      back : (x : Scalar) → scalar_add (scalar_add x d) (scalar_sub scalar_zero d) ≡ x
      back x =
          laws.scalar-add_assoc x d (scalar_sub scalar_zero d)
          ∙ ap (scalar_add x) (scalar-add_sub laws d scalar_zero)
          ∙ scalar-add_zero x

  -- A commitment to a bit is a Pedersen commitment.
  bit_commit-pedersen :
      (bit : ℕ) (r : Scalar) → bit < 2 → bit_commit c bit r ≡ pedersen c (scalar_from_u64 bit) r
  unfolding bit_commit pedersen
  bit_commit-pedersen zero r h =
      sym (laws.point-zero_add (point_mul r basepoint))
      ∙ ap (λ p. point_add p (point_mul r basepoint))
          (sym (laws.mul-zero (h_generator c))
            ∙ ap (λ s. point_mul s (h_generator c)) (sym laws.from_u64-zero))
  bit_commit-pedersen (suc zero) r h =
      ap (λ p. point_add p (point_mul r basepoint))
        (sym (laws.mul-one (h_generator c))
          ∙ ap (λ s. point_mul s (h_generator c)) (sym laws.from_u64-one))
  bit_commit-pedersen (suc (suc bit)) r h = absurd (omega arith)

  pub pedersen-add :
      (v w r s : Scalar)
      → point_add (pedersen c v r) (pedersen c w s) ≡ pedersen c (scalar_add v w) (scalar_add r s)
  unfolding pedersen
  pedersen-add v w r s =
      point-add_add laws (point_mul v (h_generator c)) (point_mul r basepoint)
        (point_mul w (h_generator c)) (point_mul s basepoint)
      ∙ ap (point_add (point_add (point_mul v (h_generator c)) (point_mul w (h_generator c))))
          (sym (laws.mul-add_scalar r s basepoint))
      ∙ ap (λ p. point_add p (point_mul (scalar_add r s) basepoint))
          (sym (laws.mul-add_scalar v w (h_generator c)))

  pedersen-mul :
      (a v r : Scalar) → point_mul a (pedersen c v r) ≡ pedersen c (scalar_mul a v) (scalar_mul a r)
  unfolding pedersen
  pedersen-mul a v r =
      laws.mul-add_point a (point_mul v (h_generator c)) (point_mul r basepoint)
      ∙ ap (point_add (point_mul a (point_mul v (h_generator c))))
          (sym (laws.mul-mul a r basepoint))
      ∙ ap (λ p. point_add p (point_mul (scalar_mul a r) basepoint))
          (sym (laws.mul-mul a v (h_generator c)))

  pub pedersen-zero : pedersen c scalar_zero scalar_zero ≡ identity
  unfolding pedersen
  pedersen-zero =
      ap (λ p. point_add p (point_mul scalar_zero basepoint)) (laws.mul-zero (h_generator c))
      ∙ laws.point-zero_add (point_mul scalar_zero basepoint)
      ∙ laws.mul-zero basepoint

  -- 2^i·b + 2^(i+1)·q = 2^i·v for v = b + 2·q
  weigh :
      (pow : Scalar) (bit q v : ℕ)
      → v ≡ bit + 2 * q
      → v < u64_mod
      → scalar_add
          (scalar_mul pow (scalar_from_u64 bit))
          (scalar_mul (scalar_mul pow (scalar_from_u64 2)) (scalar_from_u64 q))
        ≡ scalar_mul pow (scalar_from_u64 v)
  weigh pow bit q v e bound =
      ap (scalar_add (scalar_mul pow (scalar_from_u64 bit))) (
        laws.scalar-mul_assoc pow (scalar_from_u64 2) (scalar_from_u64 q)
        ∙ ap (scalar_mul pow) (sym (laws.from_u64-mul 2 q (omega arith))))
      ∙ sym (laws.scalar-mul_add pow (scalar_from_u64 bit) (scalar_from_u64 (2 * q)))
      ∙ ap (scalar_mul pow)
          (sym (laws.from_u64-add bit (2 * q) (omega arith)) ∙ ap scalar_from_u64 (sym e))

  -- The last blinding closes the sum.
  close_blinding :
      (pow acc_r r r_total : Scalar)
      → pow ≢ scalar_zero
      → scalar_add acc_r r ≡ r_total
      → scalar_mul pow (scalar_mul (scalar_sub r_total acc_r) (scalar_invert pow)) ≡ r
  close_blinding pow acc_r r r_total ne e =
      ap (scalar_mul pow) (laws.scalar-mul_comm (scalar_sub r_total acc_r) (scalar_invert pow))
      ∙ sym (laws.scalar-mul_assoc pow (scalar_invert pow) (scalar_sub r_total acc_r))
      ∙ ap (λ x. scalar_mul x (scalar_sub r_total acc_r)) (laws.scalar-mul_invert pow ne)
      ∙ laws.scalar-one_mul (scalar_sub r_total acc_r)
      ∙ scalar-add_cancel _ r acc_r
          (laws.scalar-sub_add r_total acc_r ∙ sym e ∙ laws.scalar-add_comm acc_r r)

  -- One term of the sum.
  term :
      (pow r_i : Scalar) (amount i : ℕ)
      → point_mul pow (bit_commit c (bit_at amount i) r_i)
        ≡ pedersen c (scalar_mul pow (scalar_from_u64 (bit_at amount i))) (scalar_mul pow r_i)
  unfolding bit_at
  term pow r_i amount i =
      ap (point_mul pow) (bit_commit-pedersen (bit_at amount i) r_i (omega arith))
      ∙ pedersen-mul pow (scalar_from_u64 (bit_at amount i)) r_i

  top_bit :
      (amount i : ℕ) → amount < u64_mod → i + 1 ≡ range_bits → bit_at amount i ≡ amount / 2 ^ i
  top_bit amount i bound at_i =
      let e : suc i ≡ 64 = omega arith in
      omega (arith, shift_step amount i, ap (λ j. amount / 2 ^ j) e)

  shift_bound : (amount i : ℕ) → amount < u64_mod → amount / 2 ^ i < u64_mod
  shift_bound amount i h = omega (arith, div-le_self amount (2 ^ i))

  -- From bit `i` on the weighted sum adds a commitment to the rest of the amount, with what the
  -- blindings still lack.
  pub weighted_sum-commit_bits :
      (amount : ℕ) (r_total : Scalar) (random : ℕ → Scalar) (n i : ℕ) (acc_r pow r : Scalar)
      (p : Point)
      → amount < u64_mod
      → i + suc n ≡ range_bits
      → pow ≢ scalar_zero
      → scalar_add acc_r r ≡ r_total
      → weighted_sum c p pow
          (map (λ b. b.0) (commit_bits c amount r_total random (suc n) i acc_r pow))
        ≡ point_add p (pedersen c (scalar_mul pow (scalar_from_u64 (amount / 2 ^ i))) r)
  unfolding weighted_sum commit_bits
  weighted_sum-commit_bits amount r_total random zero i acc_r pow r p bound at_i ne sum =
      let r_i = scalar_mul (scalar_sub r_total acc_r) (scalar_invert pow) in
      rw (is_last i at_i) (
        ap (point_add p) (
          term pow r_i amount i
          ∙ ap (λ x. pedersen c (scalar_mul pow (scalar_from_u64 x)) (scalar_mul pow r_i))
              (top_bit amount i bound at_i)
          ∙ ap (pedersen c (scalar_mul pow (scalar_from_u64 (amount / 2 ^ i))))
              (close_blinding pow acc_r r r_total ne sum)))
  weighted_sum-commit_bits amount r_total random (suc n) i acc_r pow r p bound at_i ne sum =
      let s = random i in
      let pow' = scalar_mul pow (scalar_from_u64 2) in
      let c_i = bit_commit c (bit_at amount i) s in
      let r' = scalar_sub r (scalar_mul pow s) in
      let v = scalar_mul pow (scalar_from_u64 (bit_at amount i)) in
      let w = scalar_mul pow' (scalar_from_u64 (amount / 2 ^ suc i)) in
      rw (is_early n i at_i) (
        weighted_sum-commit_bits amount r_total random n (suc i)
          (scalar_add acc_r (scalar_mul pow s)) pow' r' (point_add p (point_mul pow c_i)) bound
          (omega arith) (laws.scalar-mul_ne_zero pow (scalar_from_u64 2) ne laws.scalar-two_ne_zero)
          (laws.scalar-add_assoc acc_r (scalar_mul pow s) r'
            ∙ ap (scalar_add acc_r) (scalar-add_sub laws (scalar_mul pow s) r)
            ∙ sum)
        ∙ laws.point-add_assoc p (point_mul pow c_i) (pedersen c w r')
        ∙ ap (point_add p) (
            ap (λ q. point_add q (pedersen c w r')) (term pow s amount i)
            ∙ pedersen-add v w (scalar_mul pow s) r'
            ∙ ap (pedersen c (scalar_add v w)) (scalar-add_sub laws (scalar_mul pow s) r)
            ∙ ap (λ x. pedersen c x r)
                (weigh pow (bit_at amount i) (amount / 2 ^ suc i) (amount / 2 ^ i)
                  (shift_step amount i) (shift_bound amount i bound))))
