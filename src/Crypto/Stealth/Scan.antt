-- ===== src/Crypto/Stealth/Scan.antt =====
-- Scanning for one-time addresses: the recipient side of src/crypto/stealth.rs against the sender's.
use cipher_x.Prelude.{
  ℕ, ◌≡◌, refl, ap, arith, if◌then◌else◌, is_yes, inl, inr, Option-cases, none, some, Bytes,
  Bytes-discrete,
}
use cipher_x.Crates.{Crates}
use cipher_x.Crypto.Group.{GroupLaws, mul_swap}
use cipher_x.Crypto.Stealth.{
  hash_shared_secret, hash_output_index, StealthOutputKeys, generate_output, scan_output,
  derive_spend_key, view_scalar, generate_keypair,
}

module _ {c : Crates} (laws : GroupLaws c) where
  open c use {
    Scalar, scalar_add, scalar_from_canonical, scalar_to_bytes, Point, basepoint, point_add,
    point_mul, compress, decompress,
  }

  -- The secret that the sender and the recipient of an output compute.
  unfoldable pub shared : Scalar → Scalar → ℕ → Scalar
  shared view r output_index =
      hash_output_index c (hash_shared_secret c (point_mul r (point_mul view basepoint)))
        output_index

  -- The keys of an output for the address of a key pair.
  unfoldable pub output_keys : Scalar → Scalar → Scalar → ℕ → StealthOutputKeys c
  unfolding shared
  output_keys spend view r i = record {
    tx_pubkey = compress (point_mul r basepoint);
    one_time_pubkey =
        compress (point_add (point_mul (shared view r i) basepoint) (point_mul spend basepoint));
    shared_secret = shared view r i;
  }

  pub generate_output-own :
      (spend view r : Scalar) (i : ℕ)
      → generate_output c
          (record {
            public_spend = compress (point_mul spend basepoint);
            public_view = compress (point_mul view basepoint);
          })
          i
          r
        ≡ some (output_keys spend view r i)
  unfolding generate_output output_keys shared
  generate_output-own spend view r i =
      rw
        (
          laws.decompress-compress (point_mul spend basepoint),
          laws.decompress-compress (point_mul view basepoint),
        )
        refl

  generate_output-keypair :
      (spend random r : Scalar) (i : ℕ)
      → generate_output c ((generate_keypair c spend random).address) i r
        ≡ some (output_keys spend (view_scalar c spend random) r i)
  unfolding generate_keypair
  generate_output-keypair spend random r i =
      generate_output-own spend (view_scalar c spend random) r i

  pub scan_output-own :
      (spend view r : Scalar) (i : ℕ)
      → scan_output c
          (compress (point_mul r basepoint))
          ((output_keys spend view r i).one_time_pubkey)
          i
          (scalar_to_bytes view)
          (compress (point_mul spend basepoint))
        ≡ some (scalar_to_bytes (shared view r i))
  unfolding scan_output output_keys shared
  scan_output-own spend view r i =
      rw
        (
          laws.decompress-compress (point_mul r basepoint),
          laws.decompress-compress (point_mul spend basepoint),
          laws.from_canonical-to_bytes view,
          mul_swap laws view r basepoint,
        )
        (ground arith)

  match_inv :
      (b s_i : Scalar) (output_pubkey out : Bytes)
      → (if is_yes (
            Bytes-discrete
              (compress (point_add (point_mul s_i basepoint) (point_mul b basepoint)))
              output_pubkey)
          then some (scalar_to_bytes s_i)
          else none)
        ≡ some out
      → (scalar_to_bytes s_i ≡ out)
        × (compress (point_mul (scalar_add s_i b) basepoint) ≡ output_pubkey)
  match_inv b s_i output_pubkey out h =
      ground (arith, ap compress (laws.mul-add_scalar s_i b basepoint))

  -- A secret that the scan of an output returns, added to the private spend key, is the private
  -- key of that output.
  pub derive_spend_key-scan_output :
      (b : Scalar) (tx_pubkey output_pubkey view_key out : Bytes) (i : ℕ)
      → scan_output c tx_pubkey output_pubkey i view_key (compress (point_mul b basepoint))
        ≡ some out
      → (x : Scalar) × (derive_spend_key c out (scalar_to_bytes b) ≡ some (scalar_to_bytes x))
        × (compress (point_mul x basepoint) ≡ output_pubkey)
  unfolding scan_output derive_spend_key
  derive_spend_key-scan_output b tx_pubkey output_pubkey view_key out i h =
      elim (Option-cases (decompress tx_pubkey)) [
        | inl e ↦ absurd (ground (arith, rw e at h))
        | inr (r_point, er) ↦ elim (Option-cases (scalar_from_canonical view_key)) [
          | inl e ↦
              absurd
                (ground (arith, rw (er, laws.decompress-compress (point_mul b basepoint), e) at h))
          | inr (a, ea) ↦
              let s_i = hash_output_index c (hash_shared_secret c (point_mul a r_point)) i in
              let found =
                match_inv b s_i output_pubkey out
                  (rw (er, laws.decompress-compress (point_mul b basepoint), ea) at h) in
              (
                scalar_add s_i b,
                rw (← found.0, laws.from_canonical-to_bytes s_i, laws.from_canonical-to_bytes b)
                    refl,
                found.1,
              )
        ]
      ]

  -- For a key pair from `generate_keypair` and an output that `generate_output` makes for its
  -- address, `scan_output` with the pair's view key finds the output and returns the sender's
  -- shared secret, and `derive_spend_key` makes of it the private key of the output.
  pub scan_output-generate_output :
      (spend random r : Scalar) (i : ℕ)
      → (keys : StealthOutputKeys c) × (x : Scalar) × (generate_output c
            ((generate_keypair c spend random).address)
            i
            r
          ≡ some keys)
        × (scan_output c keys.tx_pubkey keys.one_time_pubkey i
              ((generate_keypair c spend random).private_view)
              ((generate_keypair c spend random).public_spend)
            ≡ some (scalar_to_bytes keys.shared_secret))
        × (derive_spend_key c
              (scalar_to_bytes keys.shared_secret)
              ((generate_keypair c spend random).private_spend)
            ≡ some (scalar_to_bytes x))
        × (compress (point_mul x basepoint) ≡ keys.one_time_pubkey)
  unfolding generate_keypair output_keys view_scalar
  scan_output-generate_output spend random r i =
      let keys = output_keys spend (view_scalar c spend random) r i in
      let found = scan_output-own spend (view_scalar c spend random) r i in
      let (x, derived, key) = derive_spend_key-scan_output spend _ _ _ _ i found in
      (keys, x, generate_output-keypair spend random r i, found, derived, key)
