-- ===== src/Crypto/RingSig/Complete.antt =====
-- Signing and verification of src/crypto/ring_sig.rs: the ring that `sign` closes.
use cipher_x.Prelude.{
  ℕ, suc, ◌≤◌, ◌≡◌, ◌≢◌, refl, sym, ap, ◌∙◌, ◌++◌, true, some, List, [], ◌∷◌, map, Bytes, length,
  take, drop, get_elem?, arith, split_at, get_elem?-lt, length-replace, length-map, length-take,
}
use cipher_x.Std.Options.{collect, get_elem?-collect, collect-map}
use cipher_x.Core.Types.{RingSignature}
use cipher_x.Crates.{Crates}
use cipher_x.Crypto.Group.{GroupLaws, close_difference}
use cipher_x.Crypto.RingSig.{hash_to_point, hash_challenge, ring_step, walk, verify}
use cipher_x.Crypto.RingSig.Sign.{sign}

module _ (c : Crates) where
  open c use {
    Scalar, Scalar-discrete, scalar_from_canonical, Point, Point-discrete, identity, decompress,
  }

  -- The checks of `verify` that make it accept.
  verify-closed :
      (message : Bytes) (ring : List Bytes) (sig : RingSignature) (ps : List Point) (ki : Point)
      (ss : List Scalar) (c0 : Scalar)
      → 2 ≤ length ring
      → length sig.s ≡ length ring
      → collect decompress ring ≡ some ps
      → decompress sig.key_image ≡ some ki
      → collect scalar_from_canonical sig.s ≡ some ss
      → scalar_from_canonical sig.c0 ≡ some c0
      → ki ≢ identity
      → walk c message ki ring ps ss c0 ≡ c0
      → verify c message ring sig ≡ true
  unfolding verify
  verify-closed message ring sig ps ki ss c0 two len eps eki ess ec0 ne closed =
      rw (len, eps, eki, ess, ec0, closed) (ground arith)

  walk-append :
      (message : Bytes) (ki : Point) (pks pks' : List Bytes) (ps ps' : List Point)
      (ss ss' : List Scalar) (ch : Scalar)
      → length ps ≡ length pks
      → length ss ≡ length pks
      → walk c message ki (pks ++ pks') (ps ++ ps') (ss ++ ss') ch
        ≡ walk c message ki pks' ps' ss' (walk c message ki pks ps ss ch)
  unfolding walk
  walk-append message ki [] pks' [] ps' [] ss' ch hp hs = refl
  walk-append message ki [] pks' (p ∷ ps) ps' ss ss' ch hp hs = absurd (omega arith)
  walk-append message ki [] pks' [] ps' (s ∷ ss) ss' ch hp hs = absurd (omega arith)
  walk-append message ki (pk ∷ pks) pks' [] ps' ss ss' ch hp hs = absurd (omega arith)
  walk-append message ki (pk ∷ pks) pks' (p ∷ ps) ps' [] ss' ch hp hs = absurd (omega arith)
  walk-append message ki (pk ∷ pks) pks' (p ∷ ps) ps' (s ∷ ss) ss' ch hp hs =
      walk-append message ki pks pks' ps ps' ss ss' (ring_step c message ki s pk p ch) (omega arith)
        (omega arith)

module _ {c : Crates} (laws : GroupLaws c) where
  open c use {
    Scalar, scalar_sub, scalar_mul, scalar_to_bytes, scalar_from_canonical, Point, identity,
    basepoint, point_add, point_mul, compress, decompress,
  }

  -- The closing scalar leads to the challenge that the signer started from.
  ring_step-close :
      (message : Bytes) (x alpha ch : Scalar) (pk : Bytes)
      → ring_step c message
          (point_mul x (hash_to_point c pk))
          (scalar_sub alpha (scalar_mul ch x))
          pk
          (point_mul x basepoint)
          ch
        ≡ hash_challenge c message
            (point_mul alpha basepoint)
            (point_mul alpha (hash_to_point c pk))
  unfolding ring_step
  ring_step-close message x alpha ch pk =
      rw
        (
          close_difference laws alpha ch x basepoint,
          close_difference laws alpha ch x (hash_to_point c pk),
        )
        refl

  walk-around :
      (message : Bytes) (x alpha : Scalar) (pk : Bytes) (before after : List Bytes)
      (ps_before ps_after : List Point) (s_before s_after : List Scalar) (c0 c_real : Scalar)
      → length ps_before ≡ length before
      → length s_before ≡ length before
      → walk c message (point_mul x (hash_to_point c pk)) after ps_after s_after (
          hash_challenge c message
            (point_mul alpha basepoint)
            (point_mul alpha (hash_to_point c pk)))
        ≡ c0
      → walk c message (point_mul x (hash_to_point c pk)) before ps_before s_before c0 ≡ c_real
      → walk c message
          (point_mul x (hash_to_point c pk))
          (before ++ pk ∷ after)
          (ps_before ++ point_mul x basepoint ∷ ps_after)
          (s_before ++ scalar_sub alpha (scalar_mul c_real x) ∷ s_after)
          c0
        ≡ c0
  unfolding walk
  walk-around message x alpha pk before after ps_before ps_after s_before s_after c0 c_real hp hs e0
        er =
      walk-append c message _ before _ ps_before _ s_before _ c0 hp hs
      ∙ rw (er, ring_step-close message x alpha c_real pk) e0

  -- A signature that `sign` makes with the private key of the real member is accepted by `verify`,
  -- for every ring of at least two keys that decompress and one random scalar for each member,
  -- unless the key image is the identity; the key image depends on the real key alone.
  pub verify-sign :
      (message : Bytes) (ring : List Bytes) (real_index : ℕ) (x alpha : Scalar) (s : List Scalar)
      (ps : List Point)
      → 2 ≤ length ring
      → length s ≡ length ring
      → get_elem? ring real_index ≡ some (compress (point_mul x basepoint))
      → collect decompress ring ≡ some ps
      → point_mul x (hash_to_point c (compress (point_mul x basepoint))) ≢ identity
      → (sig : RingSignature) × (sign c message ring real_index (scalar_to_bytes x) alpha s
          ≡ some (sig, sig.key_image))
        × (verify c message ring sig ≡ true)
        × (sig.key_image
            ≡ compress (point_mul x (hash_to_point c (compress (point_mul x basepoint)))))
  unfolding sign
  verify-sign message ring i x alpha s ps two len at_i eps ne =
      let pk = compress (point_mul x basepoint) in
      let ki = point_mul x (hash_to_point c pk) in
      let at_p : get_elem? ps i ≡ some (point_mul x basepoint) =
        get_elem?-collect decompress ring ps i pk eps at_i
        ∙ laws.decompress-compress (point_mul x basepoint) in
      let c_next =
        hash_challenge c message (point_mul alpha basepoint)
          (point_mul alpha (hash_to_point c pk)) in
      let c0 = walk c message ki (drop (suc i) ring) (drop (suc i) ps) (drop (suc i) s) c_next in
      let c_real = walk c message ki (take i ring) (take i ps) (take i s) c0 in
      let ss = take i s ++ scalar_sub alpha (scalar_mul c_real x) ∷ drop (suc i) s in
      let sig : RingSignature = record {
        c0 = scalar_to_bytes c0;
        s = map scalar_to_bytes ss;
        key_image = compress ki;
      } in
      let lt = get_elem?-lt ring i pk at_i in
      let lt_p = get_elem?-lt ps i (point_mul x basepoint) at_p in
      let closed =
        walk-around message x alpha pk (take i ring) (drop (suc i) ring) (take i ps)
          (drop (suc i) ps) (take i s) (drop (suc i) s) c0 c_real
          (length-take i ps (omega arith) ∙ sym (length-take i ring (omega arith)))
          (length-take i s (omega arith) ∙ sym (length-take i ring (omega arith))) refl refl in
      (
        sig,
        rw (laws.from_canonical-to_bytes x, eps, at_i) (ground arith),
        verify-closed c message ring sig ps ki ss c0 two
            (length-map scalar_to_bytes ss
              ∙ length-replace s i (scalar_sub alpha (scalar_mul c_real x)) (omega arith)
              ∙ len)
            eps (laws.decompress-compress ki)
            (collect-map scalar_from_canonical scalar_to_bytes ss laws.from_canonical-to_bytes)
            (laws.from_canonical-to_bytes c0) ne
            (ap (λ l. walk c message ki l ps ss c0) (split_at ring i pk at_i)
              ∙ ap (λ l. walk c message ki (take i ring ++ pk ∷ drop (suc i) ring) l ss c0)
                  (split_at ps i (point_mul x basepoint) at_p)
              ∙ closed),
        refl,
      )
