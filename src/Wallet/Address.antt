-- ===== src/Wallet/Address.antt =====
-- Keys and addresses: `derive_keys` and `parse_cx1_address` of src/bin/wallet.rs, and
-- `parse_stealth_address` of src/main.rs.
pub mod RoundTrip
use cipher_x.Prelude.{
  ℕ, zero, suc, Bool, true, false, not, ◌||◌, Option, none, some, List, [], ◌∷◌, ◌++◌, Bytes,
  Bytes-discrete, length, take, drop, ltb, ◌==◌, if◌then◌else◌, is_yes,
}
use cipher_x.Std.Encoding.{ascii}
use cipher_x.Std.Options.{◌>>=◌}
use cipher_x.Core.Types.{StealthAddress}
use cipher_x.Crates.{Crates}
use cipher_x.Wallet.Data.{WalletData, Codecs}

-- "CX1"
abbrev pub prefix : Bytes
prefix = ascii "CX1"

-- `str::strip_prefix`
abbrev pub strip : Bytes → Bytes → Option Bytes
strip [] s = some s
strip (p ∷ ps) [] = none
strip (p ∷ ps) (b ∷ bs) = if p == b then strip ps bs else none

abbrev pub is_some : {A : Type 0} → Option A → Bool
is_some none = false
is_some (some _) = true

module _ (c : Crates) (t : Codecs) where
  open c use {sha3_256, sha3_512, scalar_from_wide, scalar_to_bytes, basepoint, point_mul, compress}
  open t use {hex_encode, bs58_encode, bs58_decode}

  unfoldable pub checksum : Bytes → Bytes
  checksum keys = take 4 (sha3_256 (ascii "CipherX_addr_v1" ++ keys))

  -- The address of two public keys.
  unfoldable pub encode_address : Bytes → Bytes → Bytes
  unfolding checksum
  encode_address spend view = prefix ++ bs58_encode ((spend ++ view) ++ checksum (spend ++ view))

  unfoldable pub derive_keys : Bytes → WalletData
  unfolding encode_address
  derive_keys mnemonic =
      let spend_scalar = scalar_from_wide (sha3_512 (ascii "CipherX_spend_v2" ++ mnemonic)) in
      let spend_point = point_mul spend_scalar basepoint in
      let view_scalar =
        scalar_from_wide (sha3_512 (ascii "CipherX_view_v2" ++ scalar_to_bytes spend_scalar)) in
      let view_point = point_mul view_scalar basepoint in
      record {
        mnemonic = mnemonic;
        private_spend = hex_encode (scalar_to_bytes spend_scalar);
        private_view = hex_encode (scalar_to_bytes view_scalar);
        public_spend = hex_encode (compress spend_point);
        public_view = hex_encode (compress view_point);
        address = encode_address (compress spend_point) (compress view_point);
        version = 2;
      }

  -- The decoded address: 64 bytes of keys and 4 of the checksum.
  unfoldable pub keys_of : Bytes → Option (Bytes × Bytes)
  unfolding checksum
  keys_of bytes =
      if not (length bytes == 68)
      then none
      else if not (is_yes (Bytes-discrete (drop 64 bytes) (checksum (take 64 bytes))))
      then none
      else some (take 32 bytes, take 32 (drop 32 bytes))

  unfoldable pub parse_cx1_address : Bytes → Option (Bytes × Bytes)
  unfolding keys_of
  parse_cx1_address addr = do
    b58_part ← strip prefix addr
    bytes ← bs58_decode b58_part
    keys_of bytes

  abbrev pub stealth_address : Bytes × Bytes → Option StealthAddress
  stealth_address (spend, view) = some (record { public_spend = spend; public_view = view })

  -- The node's own reading of the decoded bytes.
  unfoldable pub address_of : Bytes → Option StealthAddress
  address_of decoded =
      if not (length decoded == 68)
      then none
      else (let full = sha3_256 (ascii "CipherX_addr_v1" ++ take 64 decoded) in
          if not (is_yes (Bytes-discrete (take 4 full) (take 4 (drop 64 decoded))))
          then none
          else some
              (record { public_spend = take 32 decoded; public_view = take 32 (drop 32 decoded) }))

  unfoldable pub parse_stealth_address : Bytes → Option StealthAddress
  unfolding address_of
  parse_stealth_address addr =
      if not (is_some (strip prefix addr)) || ltb (length addr) 10
      then none
      else bs58_decode (drop 3 addr) >>= address_of
