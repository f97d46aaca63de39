-- ===== src/Crypto/Ringct/Prove.antt =====
-- src/crypto/ringct.rs: `prove_range` and `build_or_proof`. The random scalars are functions of the bit's
-- index; the vectors of bit commitments and of bit blindings are one list of pairs.
use cipher_x.Prelude.{
  ℕ, zero, suc, ◌-◌, ◌/◌, ◌%◌, ◌^◌, ◌++◌, Option, some, List, [], ◌∷◌, map, Bytes, ltb, ◌==◌,
  if◌then◌else◌,
}
use cipher_x.Std.Options.{◌>>=◌}
use cipher_x.Core.Types.{Bulletproof}
use cipher_x.Crates.{Crates}
use cipher_x.Crypto.Ringct.{h_generator, commit, hash_to_scalar, range_bits, range_tag}

-- `((amount >> i) & 1) as u8`
unfoldable pub bit_at : ℕ → ℕ → ℕ
bit_at amount i = (amount / 2 ^ i) % 2

module _ (c : Crates) where
  open c use {
    Scalar, scalar_zero, scalar_one, scalar_add, scalar_sub, scalar_mul, scalar_invert,
    scalar_from_u64, scalar_from_canonical, scalar_to_bytes, Point, basepoint, point_add, point_sub,
    point_mul, compress,
  }

  -- The tuple (e0, e1, s0, s1).
  pub record OrProof : Type 0 where
    pub e0 : Scalar
    pub e1 : Scalar
    pub s0 : Scalar
    pub s1 : Scalar

  -- The random scalars of one proof: the nonce of the real branch, and the simulated branch.
  pub record Nonces : Type 0 where
    pub k : Scalar
    pub e : Scalar
    pub s : Scalar

  -- The branch of `build_or_proof` for a bit that is 0.
  unfoldable pub or_proof_zero : Point → Scalar → Point → Nonces → OrProof
  or_proof_zero c_i r h nonces =
      let a0 = point_mul nonces.k basepoint in
      let a1 = point_sub (point_mul nonces.s basepoint) (point_mul nonces.e (point_sub c_i h)) in
      let e_total = hash_to_scalar c (compress c_i ∷ compress a0 ∷ compress a1 ∷ []) in
      let e0 = scalar_sub e_total nonces.e in
      record { e0 = e0; e1 = nonces.e; s0 = scalar_add nonces.k (scalar_mul e0 r); s1 = nonces.s }

  -- The branch for a bit that is 1.
  unfoldable pub or_proof_one : Point → Scalar → Nonces → OrProof
  or_proof_one c_i r nonces =
      let a0 = point_sub (point_mul nonces.s basepoint) (point_mul nonces.e c_i) in
      let a1 = point_mul nonces.k basepoint in
      let e_total = hash_to_scalar c (compress c_i ∷ compress a0 ∷ compress a1 ∷ []) in
      let e1 = scalar_sub e_total nonces.e in
      record { e0 = nonces.e; e1 = e1; s0 = nonces.s; s1 = scalar_add nonces.k (scalar_mul e1 r) }

  unfoldable pub build_or_proof : ℕ → Point → Scalar → Point → Nonces → OrProof
  unfolding or_proof_zero or_proof_one
  build_or_proof bit c_i r h nonces =
      if bit == 0 then or_proof_zero c_i r h nonces else or_proof_one c_i r nonces

  -- C_i = b_i·H + r_i·G
  unfoldable pub bit_commit : ℕ → Scalar → Point
  bit_commit bit r_i =
      if bit == 0
      then point_mul r_i basepoint
      else point_add (h_generator c) (point_mul r_i basepoint)

  -- The first loop, from bit `i` on, with `acc_r` and `acc_pow`: the commitments and blindings.
  unfoldable pub commit_bits :
      ℕ → Scalar → (ℕ → Scalar) → ℕ → ℕ → Scalar → Scalar → List (Point × Scalar)
  unfolding bit_commit
  commit_bits amount r_total random zero i acc_r acc_pow = []
  commit_bits amount r_total random (suc n) i acc_r acc_pow =
      let early = ltb i (range_bits - 1) in
      let s = random i in
      let r_i =
        if early then s else scalar_mul (scalar_sub r_total acc_r) (scalar_invert acc_pow) in
      let acc_r' = if early then scalar_add acc_r (scalar_mul acc_pow s) else acc_r in
      let c_i = bit_commit (bit_at amount i) r_i in
      (c_i, r_i)
      ∷ commit_bits amount r_total random n (suc i) acc_r' (scalar_mul acc_pow (scalar_from_u64 2))

  -- The bytes of one bit's proof.
  unfoldable pub bit_bytes : Point → OrProof → Bytes
  bit_bytes c_i p =
      compress c_i
      ++ (scalar_to_bytes p.e0
          ++ (scalar_to_bytes p.e1 ++ (scalar_to_bytes p.s0 ++ scalar_to_bytes p.s1)))

  -- The second loop, from bit `i` on.
  unfoldable pub prove_bits : ℕ → (ℕ → Nonces) → ℕ → List (Point × Scalar) → Bytes
  unfolding build_or_proof bit_bytes bit_at
  prove_bits amount nonces i [] = []
  prove_bits amount nonces i ((c_i, r_i) ∷ rest) =
      bit_bytes c_i (build_or_proof (bit_at amount i) c_i r_i (h_generator c) (nonces i))
      ++ prove_bits amount nonces (suc i) rest

  unfoldable pub prove_range : ℕ → Bytes → (ℕ → Scalar) → (ℕ → Nonces) → Option Bulletproof
  unfolding commit_bits prove_bits
  prove_range amount blinding random nonces = do
    r_total ← scalar_from_canonical blinding
    let bits = commit_bits amount r_total random range_bits 0 scalar_zero scalar_one
    outer ← commit c amount blinding
    some (prove_bits amount nonces 0 bits ++ range_tag c outer (map (λ b. b.0) bits))
