-- ===== src/Wallet/Address/RoundTrip.antt =====
-- Addresses that are made by src/bin/wallet.rs and read by both programs.
use mathlib.Core.List.{append_assoc}
use cipher_x.Prelude.{
  ◌+◌, ◌≤◌, ◌<◌, ◌≡◌, refl, sym, ap, ◌∙◌, true, false, none, some, [], ◌∷◌, ◌++◌, Bytes,
  Bytes-discrete, length, take, drop, ltb, ◌==◌, ltb→lt, is_yes_of, is_yes-no, take_all,
  length-drop, Bool-cases, Option-cases, inl, inr, arith, length-append, length-take, take-append,
  drop-append,
}
use cipher_x.Std.Encoding.{ascii}
use cipher_x.Std.Options.{◌>>=◌}
use cipher_x.Crates.{Crates}
use cipher_x.Wallet.Data.{Codecs, CodecLaws}
use cipher_x.Wallet.Address.{
  prefix, strip, is_some, checksum, encode_address, derive_keys, keys_of, parse_cx1_address,
  stealth_address, address_of, parse_stealth_address,
}

-- Hashes and compressed points have 32 bytes.
pub record SizeLaws (c : Crates) : Type 0 where
  pub length-sha3_256 : (b : Bytes) → length (c.sha3_256 b) ≡ 32
  pub length-compress : (p : c.Point) → length (c.compress p) ≡ 32

strip_inv :
    (p s rest : Bytes)
    → strip p s ≡ some rest
    → (drop (length p) s ≡ rest) × (length s ≡ length p + length rest)
strip_inv [] s rest h = (ground arith, ground arith)
strip_inv (p ∷ ps) [] rest h = absurd (ground arith)
strip_inv (p ∷ ps) (b ∷ bs) rest h = elim (Bool-cases (p == b)) [
  | inl e ↦ let (tail, size) = strip_inv ps bs rest (rw e at h) in (tail, omega (arith, size))
  | inr e ↦ absurd (ground (arith, rw e at h))
]

module _ {c : Crates} (t : Codecs) (sizes : SizeLaws c) (laws : CodecLaws t) where
  keys_of_lem :
      (spend view sum : Bytes)
      → length spend ≡ 32
      → length view ≡ 32
      → length sum ≡ 4
      → checksum c t (spend ++ view) ≡ sum
      → keys_of c t ((spend ++ view) ++ sum) ≡ some (spend, view)
  unfolding keys_of
  keys_of_lem spend view sum hs hv h4 h =
      let size : length (spend ++ view) ≡ 64 = omega (arith, length-append spend view) in
      let whole : (length ((spend ++ view) ++ sum) == 68) ≡ true =
        ground (arith, length-append (spend ++ view) sum) in
      let front : take 32 ((spend ++ view) ++ sum) ≡ spend =
        ap (take 32) (append_assoc spend view sum) ∙ take-append 32 spend (view ++ sum) hs in
      let middle : take 32 (drop 32 ((spend ++ view) ++ sum)) ≡ view =
        ap (λ x. take 32 (drop 32 x)) (append_assoc spend view sum)
        ∙ ap (take 32) (drop-append 32 spend (view ++ sum) hs)
        ∙ take-append 32 view sum hv in
      rw
        (
          whole,
          drop-append 64 (spend ++ view) sum size,
          take-append 64 (spend ++ view) sum size,
          is_yes_of (Bytes-discrete sum (checksum c t (spend ++ view))) (sym h),
          front,
          middle,
        )
        refl

  length-checksum : (keys : Bytes) → length (checksum c t keys) ≡ 4
  unfolding checksum
  length-checksum keys =
      let h = c.sha3_256 (ascii "CipherX_addr_v1" ++ keys) in
      length-take 4 h (omega (arith, sizes.length-sha3_256 (ascii "CipherX_addr_v1" ++ keys)))

  keys_of-encoded :
      (spend view : Bytes)
      → length spend ≡ 32
      → length view ≡ 32
      → keys_of c t ((spend ++ view) ++ checksum c t (spend ++ view)) ≡ some (spend, view)
  keys_of-encoded spend view hs hv =
      keys_of_lem spend view (checksum c t (spend ++ view)) hs hv (length-checksum (spend ++ view))
        refl

  pub parse_cx1_address-encode_address :
      (spend view : Bytes)
      → length spend ≡ 32
      → length view ≡ 32
      → parse_cx1_address c t (encode_address c t spend view) ≡ some (spend, view)
  unfolding parse_cx1_address encode_address
  parse_cx1_address-encode_address spend view hs hv =
      rw (laws.bs58_decode-encode ((spend ++ view) ++ checksum c t (spend ++ view)))
        (keys_of-encoded spend view hs hv)

  keys_of-short : (b : Bytes) → length b < 68 → keys_of c t b ≡ none
  unfolding keys_of
  keys_of-short b h = let e : (length b == 68) ≡ false = ground arith in rw e refl

  -- The node reads the bytes as the wallet does, though it compares the checksum the other way round.
  address_of-keys_of : (b : Bytes) → address_of c t b ≡ (keys_of c t b >>= stealth_address c t)
  unfolding address_of keys_of checksum
  address_of-keys_of b = elim (Bool-cases (length b == 68)) [
    | inl whole ↦
        let sum = take 4 (c.sha3_256 (ascii "CipherX_addr_v1" ++ take 64 b)) in
        let tail : take 4 (drop 64 b) ≡ drop 64 b =
          let size : length b ≡ 68 = ground (arith, whole) in
          take_all 4 (drop 64 b) (omega (arith, length-drop 64 b, size)) in
        elim (Bytes-discrete (drop 64 b) sum) [
          | yes e ↦
              rw
                (
                  whole,
                  address_of,
                  keys_of,
                  tail,
                  is_yes_of (Bytes-discrete (drop 64 b) sum) e,
                  is_yes_of (Bytes-discrete sum (drop 64 b)) (sym e),
                )
                refl
          | no ne ↦
              rw
                (
                  whole,
                  address_of,
                  keys_of,
                  tail,
                  is_yes-no (Bytes-discrete (drop 64 b) sum) ne,
                  is_yes-no (Bytes-discrete sum (drop 64 b)) (λ e. ne (sym e)),
                )
                refl
        ]
    | inr other ↦ rw (other, address_of, keys_of) refl
  ]

  -- The parsers of the two programs accept the same texts, with the same keys.
  pub parse_stealth_address-parse_cx1_address :
      (addr : Bytes)
      → parse_stealth_address c t addr ≡ (parse_cx1_address c t addr >>= stealth_address c t)
  unfolding parse_stealth_address parse_cx1_address
  parse_stealth_address-parse_cx1_address addr = elim (Option-cases (strip prefix addr)) [
    | inl e ↦ rw e refl
    | inr (rest, e) ↦
        let (tail, size) = strip_inv prefix addr rest e in
        elim (Bool-cases (ltb (length addr) 10)) [
          | inl short ↦ elim (Option-cases (t.bs58_decode rest)) [
            | inl f ↦ rw (e, short, f) refl
            | inr (b, f) ↦
                let few : length b < 68 =
                  omega (arith, laws.bs58_decode-length rest b f, ltb→lt (length addr) 10 short) in
                rw (e, short, f, keys_of-short b few) refl
          ]
          | inr long ↦ elim (Option-cases (t.bs58_decode rest)) [
            | inl f ↦ rw (e, long, tail, f) refl
            | inr (b, f) ↦ rw (e, long, tail, f) (address_of-keys_of b)
          ]
        ]
  ]

  -- The address that the wallet shows is read by both programs as the keys that the wallet holds.
  pub parse_stealth_address-derive_keys :
      (mnemonic : Bytes)
      → let w = derive_keys c t mnemonic in
        (spend : Bytes) × (view : Bytes) × (t.hex_decode w.public_spend ≡ some spend)
        × (t.hex_decode w.public_view ≡ some view)
        × (parse_cx1_address c t w.address ≡ some (spend, view))
        × (parse_stealth_address c t w.address
            ≡ some (record { public_spend = spend; public_view = view }))
  unfolding derive_keys
  parse_stealth_address-derive_keys mnemonic =
      let spend_scalar = c.scalar_from_wide (c.sha3_512 (ascii "CipherX_spend_v2" ++ mnemonic)) in
      let view_scalar =
        c.scalar_from_wide
          (c.sha3_512 (ascii "CipherX_view_v2" ++ c.scalar_to_bytes spend_scalar)) in
      let spend = c.compress (c.point_mul spend_scalar c.basepoint) in
      let view = c.compress (c.point_mul view_scalar c.basepoint) in
      let parsed =
        parse_cx1_address-encode_address spend view (sizes.length-compress _)
          (sizes.length-compress _) in
      (
        spend,
        view,
        laws.hex_decode-encode spend,
        laws.hex_decode-encode view,
        parsed,
        parse_stealth_address-parse_cx1_address (encode_address c t spend view)
            ∙ ap (λ o. o >>= stealth_address c t) parsed,
      )

  pub strip-encode_address :
      (spend view : Bytes) → is_some (strip prefix (encode_address c t spend view)) ≡ true
  unfolding encode_address
  strip-encode_address spend view = refl

  -- Base 58 is no shorter than the bytes.
  pub length-encode_address :
      (spend view : Bytes)
      → length spend ≡ 32
      → length view ≡ 32
      → 68 ≤ length (encode_address c t spend view)
  unfolding encode_address
  length-encode_address spend view hs hv =
      let bytes = (spend ++ view) ++ checksum c t (spend ++ view) in
      omega (
        arith,
        length-append (spend ++ view) (checksum c t (spend ++ view)),
        length-append spend view,
        length-checksum (spend ++ view),
        laws.bs58_decode-length (t.bs58_encode bytes) bytes (laws.bs58_decode-encode bytes),
      )
