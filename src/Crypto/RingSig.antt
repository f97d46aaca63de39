-- ===== src/Crypto/RingSig.antt =====
-- src/crypto/ring_sig.rs: the LSAG ring signature's verifier.
pub mod Sign
pub mod Complete
use cipher_x.Prelude.{
  ◌++◌, Bool, false, ◌||◌, not, none, some, List, ◌∷◌, Bytes, length, ltb, ◌==◌, if◌then◌else◌,
  is_yes,
}
use cipher_x.Std.Encoding.{ascii}
use cipher_x.Std.Options.{collect}
use cipher_x.Core.Types.{KeyImage, RingSignature}
use cipher_x.Crates.{Crates}

module _ (c : Crates) where
  open c use {
    sha3_512, deserialize_signature, Scalar, Scalar-discrete, scalar_from_canonical,
    scalar_from_wide, Point, Point-discrete, identity, basepoint, point_add, point_mul, compress,
    decompress, point_from_uniform,
  }

  -- H_p(P)
  unfoldable pub hash_to_point : Bytes → Point
  hash_to_point pubkey = point_from_uniform (sha3_512 (ascii "CipherX_H_p" ++ pubkey))

  unfoldable pub hash_challenge : Bytes → Point → Point → Scalar
  hash_challenge message l r =
      scalar_from_wide (sha3_512 (ascii "CipherX_MLSAG" ++ (message ++ (compress l ++ compress r))))

  -- The challenge after one ring member: H(m, s·G + c·P, s·H_p(P) + c·I).
  unfoldable pub ring_step : Bytes → Point → Scalar → Bytes → Point → Scalar → Scalar
  unfolding hash_to_point hash_challenge
  ring_step message key_image s pk p ch =
      let l = point_add (point_mul s basepoint) (point_mul ch p) in
      let r = point_add (point_mul s (hash_to_point pk)) (point_mul ch key_image) in
      hash_challenge message l r

  -- The loop over the ring, over the three lists of one length.
  unfoldable pub walk : Bytes → Point → List Bytes → List Point → List Scalar → Scalar → Scalar
  unfolding ring_step
  walk message key_image (pk ∷ pks) (p ∷ ps) (s ∷ ss) ch =
      walk message key_image pks ps ss (ring_step message key_image s pk p ch)
  walk message key_image _ _ _ ch = ch

  unfoldable pub verify : Bytes → List Bytes → RingSignature → Bool
  unfolding walk
  verify message ring_pubkeys sig =
      if ltb (length ring_pubkeys) 2 || not (length sig.s == length ring_pubkeys)
      then false
      else elim (collect decompress ring_pubkeys) [
        | none ↦ false
        | some pubkeys ↦ elim (decompress sig.key_image) [
          | none ↦ false
          | some key_image ↦ elim (collect scalar_from_canonical sig.s) [
            | none ↦ false
            | some s ↦ elim (scalar_from_canonical sig.c0) [
              | none ↦ false
              | some c0 ↦
                  if is_yes (Point-discrete key_image identity)
                  then false
                  else is_yes
                      (Scalar-discrete (walk message key_image ring_pubkeys pubkeys s c0) c0)
            ]
          ]
        ]
      ]

  unfoldable pub verify_ring : Bytes → List Bytes → Bytes → KeyImage → Bool
  unfolding verify
  verify_ring message ring_members signature_bytes key_image =
      elim (deserialize_signature signature_bytes) [
        | none ↦ false
        | some sig ↦ verify message ring_members sig
      ]
