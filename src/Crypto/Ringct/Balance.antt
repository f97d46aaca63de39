-- ===== src/Crypto/Ringct/Balance.antt =====
-- The balance of the commitments that src/crypto/ringct.rs `build_tx_commitments` makes.
use mathlib.Core.List.{foldl}
use cipher_x.Prelude.{
  ℕ, suc, ◌+◌, ◌<◌, ◌≡◌, refl, sym, ap, ◌∙◌, ◌||◌, Bool, true, some, List, [], ◌∷◌, map, arith,
  u64_mod, is_yes_of,
}
use cipher_x.Std.Options.{collect}
use cipher_x.Core.Types.{PedersenCommitment}
use cipher_x.Crates.{Crates}
use cipher_x.Crypto.Group.{GroupLaws}
use cipher_x.Crypto.Ringct.{
  pedersen, commit, balanced, verify_balance, sum_blindings, compute_fee_blinding,
}
use cipher_x.Crypto.Ringct.Build.{
  CommitmentWithBlinding, TxCommitments, commit_random, commit_all, build_tx_commitments,
}
use cipher_x.Crypto.Ringct.Reconstruct.{pedersen-add, pedersen-zero, scalar-add_zero}

abbrev pub sum : List ℕ → ℕ
sum [] = 0
sum (n ∷ ns) = n + sum ns

or_true : (a b : Bool) → b ≡ true → (a || b) ≡ true
or_true a b h = ground arith

module _ {c : Crates} (laws : GroupLaws c) where
  open c use {
    Scalar, scalar_zero, scalar_add, scalar_sub, scalar_from_u64, scalar_from_canonical,
    scalar_to_bytes, Point, Point-discrete, identity, point_add, point_sub, compress, decompress,
  }

  no_difference : (p : Point) → point_sub p p ≡ identity
  no_difference p =
      ap (λ q. point_sub q p) (sym (laws.point-zero_add p)) ∙ laws.point-add_sub identity p

  -- The blindings of the amounts from position `i` on.
  unfoldable total : (ℕ → Scalar) → ℕ → List ℕ → Scalar
  total random i [] = scalar_zero
  total random i (a ∷ rest) = scalar_add (random i) (total random (suc i) rest)

  unfoldable points : (ℕ → Scalar) → ℕ → List ℕ → List Point
  points random i [] = []
  points random i (a ∷ rest) =
      pedersen c (scalar_from_u64 a) (random i) ∷ points random (suc i) rest

  unfoldable made : (ℕ → Scalar) → ℕ → List ℕ → List CommitmentWithBlinding
  made random i [] = []
  made random i (a ∷ rest) =
      record {
        commitment = compress (pedersen c (scalar_from_u64 a) (random i));
        blinding = scalar_to_bytes (random i);
        amount = a;
      }
      ∷ made random (suc i) rest

  commit_all-made :
      (random : ℕ → Scalar) (i : ℕ) (rest : List ℕ)
      → commit_all c random i rest ≡ some (made random i rest)
  unfolding commit_all commit_random commit made
  commit_all-made random i [] = refl
  commit_all-made random i (a ∷ rest) =
      rw (laws.from_canonical-to_bytes (random i), commit_all-made random (suc i) rest) refl

  collect-made :
      (random : ℕ → Scalar) (i : ℕ) (rest : List ℕ)
      → collect decompress (map (λ x. x.commitment) (made random i rest))
        ≡ some (points random i rest)
  unfolding collect made points
  collect-made random i [] = refl
  collect-made random i (a ∷ rest) =
      rw
        (
          laws.decompress-compress (pedersen c (scalar_from_u64 a) (random i)),
          collect-made random (suc i) rest,
        )
        refl

  sum_blindings-made :
      (random : ℕ → Scalar) (i : ℕ) (rest : List ℕ) (acc : Scalar)
      → sum_blindings c acc (map (λ x. x.blinding) (made random i rest))
        ≡ some (scalar_add acc (total random i rest))
  unfolding sum_blindings made total
  sum_blindings-made random i [] acc = ap some (sym (scalar-add_zero laws acc))
  sum_blindings-made random i (a ∷ rest) acc = rw (laws.from_canonical-to_bytes (random i)) (
      sum_blindings-made random (suc i) rest (scalar_add acc (random i))
      ∙ ap some (laws.scalar-add_assoc acc (random i) (total random (suc i) rest)))

  foldl-points :
      (random : ℕ → Scalar) (i n : ℕ) (rest : List ℕ) (s : Scalar)
      → n + sum rest < u64_mod
      → foldl point_add (pedersen c (scalar_from_u64 n) s) (points random i rest)
        ≡ pedersen c (scalar_from_u64 (n + sum rest)) (scalar_add s (total random i rest))
  unfolding points total
  foldl-points random i n [] s h =
      ap (λ m. pedersen c (scalar_from_u64 m) s) (omega arith)
      ∙ ap (pedersen c (scalar_from_u64 (n + 0))) (sym (scalar-add_zero laws s))
  foldl-points random i n (a ∷ rest) s h =
      ap (λ p. foldl point_add p (points random (suc i) rest))
        (pedersen-add laws (scalar_from_u64 n) (scalar_from_u64 a) s (random i)
          ∙ ap (λ v. pedersen c v (scalar_add s (random i)))
              (sym (laws.from_u64-add n a (omega arith))))
      ∙ foldl-points random (suc i) (n + a) rest (scalar_add s (random i)) (omega arith)
      ∙ ap
          (λ m.
            pedersen c (scalar_from_u64 m)
              (scalar_add (scalar_add s (random i)) (total random (suc i) rest)))
          (omega arith)
      ∙ ap (pedersen c (scalar_from_u64 (n + (a + sum rest))))
          (laws.scalar-add_assoc s (random i) (total random (suc i) rest))

  balanced-of_eq :
      (ins outs : List Point) (f : Point)
      → foldl point_add identity ins ≡ foldl point_add f outs
      → balanced c ins outs f ≡ true
  unfolding balanced
  balanced-of_eq ins outs f e = or_true _ _ (
      is_yes_of
        (Point-discrete (point_sub (foldl point_add identity ins) (foldl point_add f outs))
          identity)
        (ap (λ p. point_sub p (foldl point_add f outs)) e ∙ no_difference (foldl point_add f outs)))

  verify_balance-of_points :
      (inputs outputs : List PedersenCommitment) (fee : PedersenCommitment) (ins outs : List Point)
      (f : Point)
      → collect decompress inputs ≡ some ins
      → collect decompress outputs ≡ some outs
      → decompress fee ≡ some f
      → foldl point_add identity ins ≡ foldl point_add f outs
      → verify_balance c inputs outputs fee ≡ true
  unfolding verify_balance
  verify_balance-of_points inputs outputs fee ins outs f ei eo ef e =
      rw (verify_balance, ei, eo, ef) (balanced-of_eq ins outs f e)

  fee_blinding : (ℕ → Scalar) → (ℕ → Scalar) → List ℕ → List ℕ → Scalar
  fee_blinding random_in random_out ins outs =
      scalar_sub (scalar_add scalar_zero (total random_in 0 ins))
        (scalar_add scalar_zero (total random_out 0 outs))

  sum_inputs :
      (random : ℕ → Scalar) (ins : List ℕ)
      → sum ins < u64_mod
      → foldl point_add identity (points random 0 ins)
        ≡ pedersen c (scalar_from_u64 (sum ins)) (total random 0 ins)
  sum_inputs random ins h =
      ap (λ p. foldl point_add p (points random 0 ins))
        (sym (pedersen-zero laws) ∙ ap (λ v. pedersen c v scalar_zero) (sym laws.from_u64-zero))
      ∙ foldl-points random 0 0 ins scalar_zero (omega arith)
      ∙ ap (pedersen c (scalar_from_u64 (0 + sum ins))) (laws.scalar-zero_add (total random 0 ins))
      ∙ ap (λ m. pedersen c (scalar_from_u64 m) (total random 0 ins)) (omega arith)

  sum_outputs :
      (random_in random_out : ℕ → Scalar) (ins outs : List ℕ) (fee : ℕ)
      → sum ins ≡ sum outs + fee
      → sum ins < u64_mod
      → foldl point_add
          (pedersen c (scalar_from_u64 fee) (fee_blinding random_in random_out ins outs))
          (points random_out 0 outs)
        ≡ pedersen c (scalar_from_u64 (sum ins)) (total random_in 0 ins)
  unfolding fee_blinding
  sum_outputs random_in random_out ins outs fee e h =
      foldl-points random_out 0 fee outs (fee_blinding random_in random_out ins outs) (omega arith)
      ∙ ap
          (λ m.
            pedersen c (scalar_from_u64 m)
              (scalar_add (fee_blinding random_in random_out ins outs) (total random_out 0 outs)))
          (omega arith)
      ∙ ap (pedersen c (scalar_from_u64 (sum ins))) (
          ap (scalar_add (fee_blinding random_in random_out ins outs))
            (sym (laws.scalar-zero_add (total random_out 0 outs)))
          ∙ laws.scalar-sub_add (scalar_add scalar_zero (total random_in 0 ins))
              (scalar_add scalar_zero (total random_out 0 outs))
          ∙ laws.scalar-zero_add (total random_in 0 ins))

  compute_fee_blinding-made :
      (random_in random_out : ℕ → Scalar) (ins outs : List ℕ)
      → compute_fee_blinding c
          (map (λ x. x.blinding) (made random_in 0 ins))
          (map (λ x. x.blinding) (made random_out 0 outs))
        ≡ some (scalar_to_bytes (fee_blinding random_in random_out ins outs))
  unfolding compute_fee_blinding fee_blinding
  compute_fee_blinding-made random_in random_out ins outs =
      rw
        (
          sum_blindings-made random_in 0 ins scalar_zero,
          sum_blindings-made random_out 0 outs scalar_zero,
        )
        refl

  -- If the amounts of the inputs sum to those of the outputs and the fee, and to less than 2^64,
  -- then `build_tx_commitments` succeeds, whatever the random blindings, and `verify_balance`
  -- accepts its commitments.
  pub verify_balance-build_tx_commitments :
      (ins outs : List ℕ) (fee : ℕ) (random_in random_out : ℕ → Scalar)
      → sum ins ≡ sum outs + fee
      → sum ins < u64_mod
      → (tc : TxCommitments) × (build_tx_commitments c ins outs fee random_in random_out ≡ some tc)
        × (verify_balance c tc.input_pseudo_commitments tc.output_commitments tc.fee_commitment
            ≡ true)
  unfolding build_tx_commitments commit
  verify_balance-build_tx_commitments ins outs fee random_in random_out e h =
      let fb = fee_blinding random_in random_out ins outs in
      let f = pedersen c (scalar_from_u64 fee) fb in
      let inputs = made random_in 0 ins in
      let outputs = made random_out 0 outs in
      let tc : TxCommitments = record {
        input_pseudo_commitments = map (λ x. x.commitment) inputs;
        input_blindings = map (λ x. x.blinding) inputs;
        output_commitments = map (λ x. x.commitment) outputs;
        output_blindings = map (λ x. x.blinding) outputs;
        fee_commitment = compress f;
        fee_blinding = scalar_to_bytes fb;
      } in
      (
        tc,
        rw
            (
              commit_all-made random_in 0 ins,
              commit_all-made random_out 0 outs,
              compute_fee_blinding-made random_in random_out ins outs,
              laws.from_canonical-to_bytes fb,
            )
            refl,
        verify_balance-of_points _ _ (compress f) (points random_in 0 ins)
            (points random_out 0 outs) f (collect-made random_in 0 ins)
            (collect-made random_out 0 outs) (laws.decompress-compress f)
            (sum_inputs random_in ins h ∙ sym (sum_outputs random_in random_out ins outs fee e h)),
      )
