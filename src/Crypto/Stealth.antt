-- ===== src/Crypto/Stealth.antt =====
-- src/crypto/stealth.rs: one-time addresses. The random scalars are arguments.
pub mod Scan
use cipher_x.Prelude.{
  ℕ, ◌++◌, Bool, true, false, Option, none, some, Bytes, Bytes-discrete, if◌then◌else◌, is_yes,
  arith,
}
use cipher_x.Std.Encoding.{le_bytes, ascii}
use cipher_x.Std.Options.{◌>>=◌}
use cipher_x.Core.Types.{StealthAddress}
use cipher_x.Crates.{Crates}

module _ (c : Crates) where
  open c use {
    sha3_256, sha3_512, Scalar, scalar_add, scalar_from_canonical, scalar_from_wide,
    scalar_to_bytes, Point, basepoint, point_add, point_mul, compress, decompress,
  }

  -- H_s(P)
  unfoldable pub hash_shared_secret : Point → Scalar
  hash_shared_secret p = scalar_from_wide (sha3_512 (ascii "CipherX_stealth_hs" ++ compress p))

  -- H_n(s, i)
  unfoldable pub hash_output_index : Scalar → ℕ → Scalar
  hash_output_index s i =
      scalar_from_wide
        (sha3_512 (ascii "CipherX_stealth_hn" ++ (scalar_to_bytes s ++ le_bytes 4 i)))

  pub record StealthOutputKeys : Type 0 where
    pub tx_pubkey : Bytes
    pub one_time_pubkey : Bytes
    pub shared_secret : Scalar

  -- `generate_output` with the transaction key `r`; `none` is the error of an invalid key.
  unfoldable pub generate_output : StealthAddress → ℕ → Scalar → Option StealthOutputKeys
  generate_output recipient output_index r = do
    b_spend ← decompress recipient.public_spend
    b_view ← decompress recipient.public_view
    let s = hash_shared_secret (point_mul r b_view)
    let s_i = hash_output_index s output_index
    some (record {
      tx_pubkey = compress (point_mul r basepoint);
      one_time_pubkey = compress (point_add (point_mul s_i basepoint) b_spend);
      shared_secret = s_i;
    })

  -- The bytes of the secret scalar if the output belongs to the keys.
  unfoldable pub scan_output : Bytes → Bytes → ℕ → Bytes → Bytes → Option Bytes
  scan_output tx_pubkey output_pubkey output_index view_key spend_pubkey = do
    r_point ← decompress tx_pubkey
    b_spend ← decompress spend_pubkey
    a ← scalar_from_canonical view_key
    let s = hash_shared_secret (point_mul a r_point)
    let s_i = hash_output_index s output_index
    let expected_pk = compress (point_add (point_mul s_i basepoint) b_spend)
    (if is_yes (Bytes-discrete expected_pk output_pubkey) then some (scalar_to_bytes s_i) else none)

  unfoldable pub derive_spend_key : Bytes → Bytes → Option Bytes
  derive_spend_key s_i_bytes private_spend_key = do
    s_i ← scalar_from_canonical s_i_bytes
    b ← scalar_from_canonical private_spend_key
    some (scalar_to_bytes (scalar_add s_i b))

  pub record KeyPair : Type 0 where
    pub private_spend : Bytes
    pub private_view : Bytes
    pub public_spend : Bytes
    pub public_view : Bytes
    pub address : StealthAddress

  -- The view scalar: the hash of the spend scalar if it is canonical, or a random one.
  unfoldable pub view_scalar : Scalar → Scalar → Scalar
  view_scalar spend random =
      elim (scalar_from_canonical (sha3_256 (ascii "CipherX_view_key" ++ scalar_to_bytes spend))) [
        | none ↦ random
        | some v ↦ v
      ]

  -- `generate_keypair` with its two random scalars.
  unfoldable pub generate_keypair : Scalar → Scalar → KeyPair
  unfolding view_scalar
  generate_keypair spend random =
      let view = view_scalar spend random in
      let public_spend = compress (point_mul spend basepoint) in
      let public_view = compress (point_mul view basepoint) in
      record {
        private_spend = scalar_to_bytes spend;
        private_view = scalar_to_bytes view;
        public_spend = public_spend;
        public_view = public_view;
        address = record { public_spend = public_spend; public_view = public_view };
      }
