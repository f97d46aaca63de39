-- ===== src/Crypto/RingSig/Sign.antt =====
-- src/crypto/ring_sig.rs: `sign`. The random scalars `alpha` and `s` are arguments. The loop around the
-- ring, from the member after the real one, is two walks: to the end of the ring, which leaves the
-- challenge of member 0, and from there to the real member.
use cipher_x.Prelude.{
  ℕ, suc, ◌++◌, Option, none, some, List, ◌∷◌, map, Bytes, length, take, drop, get_elem?, ltb, leb,
  if◌then◌else◌,
}
use cipher_x.Std.Options.{◌>>=◌, collect}
use cipher_x.Core.Types.{KeyImage, RingSignature}
use cipher_x.Crates.{Crates}
use cipher_x.Crypto.RingSig.{hash_to_point, hash_challenge, walk}

module _ (c : Crates) where
  open c use {
    serialize_signature, Scalar, scalar_sub, scalar_mul, scalar_from_canonical, scalar_to_bytes,
    basepoint, point_mul, compress, decompress,
  }

  -- `none` is an error; the real member's key is read after the guards.
  unfoldable pub sign :
      Bytes → List Bytes → ℕ → Bytes → Scalar → List Scalar → Option (RingSignature × KeyImage)
  sign message ring_pubkeys real_index private_key alpha s =
      if ltb (length ring_pubkeys) 2
      then none
      else if leb (length ring_pubkeys) real_index
      then none
      else do
        x ← scalar_from_canonical private_key
        pubkeys ← collect decompress ring_pubkeys
        real ← get_elem? ring_pubkeys real_index
        let hp_real = hash_to_point c real
        let key_image = point_mul x hp_real
        let c_next = hash_challenge c message (point_mul alpha basepoint) (point_mul alpha hp_real)
        let c0 =
            walk c message key_image (drop (suc real_index) ring_pubkeys)
              (drop (suc real_index) pubkeys) (drop (suc real_index) s) c_next
        let c_real =
            walk c message key_image (take real_index ring_pubkeys) (take real_index pubkeys)
              (take real_index s) c0
        let s_real = scalar_sub alpha (scalar_mul c_real x)
        let sig : RingSignature = record {
          c0 = scalar_to_bytes c0;
          s = map scalar_to_bytes (take real_index s ++ s_real ∷ drop (suc real_index) s);
          key_image = compress key_image;
        }
        some (sig, compress key_image)

  unfoldable pub sign_ring :
      Bytes → List Bytes → ℕ → Bytes → Scalar → List Scalar → Option (Bytes × KeyImage)
  unfolding sign
  sign_ring message ring_members real_index private_key alpha s = do
    (sig, ki) ← sign message ring_members real_index private_key alpha s
    some (serialize_signature sig, ki)
