-- ===== src/Wallet/Data.antt =====
-- The data of src/bin/wallet.rs, and the crates that only the programs call: hex, bs58, argon2,
-- aes_gcm and serde_json. Texts are byte strings.
use cipher_x.Prelude.{ℕ, ◌≤◌, ◌≡◌, Option, some, Bytes, length}

pub record WalletData : Type 0 where
  pub mnemonic : Bytes
  pub private_spend : Bytes
  pub private_view : Bytes
  pub public_spend : Bytes
  pub public_view : Bytes
  pub address : Bytes
  pub version : ℕ

pub record EncryptedWallet : Type 0 where
  pub nonce : Bytes
  pub salt : Bytes
  pub ciphertext : Bytes
  pub kdf : Bytes
  pub version : ℕ

pub record Codecs : Type 0 where
  pub hex_encode : Bytes → Bytes
  pub hex_decode : Bytes → Option Bytes
  pub bs58_encode : Bytes → Bytes
  pub bs58_decode : Bytes → Option Bytes
  -- Argon2id with 64 MiB, 3 iterations and 4 lanes: password and salt
  pub argon2id : Bytes → Bytes → Option Bytes
  -- AES-256-GCM: key, nonce and text
  pub aes_encrypt : Bytes → Bytes → Bytes → Option Bytes
  pub aes_decrypt : Bytes → Bytes → Bytes → Option Bytes
  pub to_vec : WalletData → Option Bytes
  pub from_slice : Bytes → Option WalletData

-- Their documented behaviour.
pub record CodecLaws (t : Codecs) : Type 0 where
  pub hex_decode-encode : (b : Bytes) → t.hex_decode (t.hex_encode b) ≡ some b
  pub bs58_decode-encode : (b : Bytes) → t.bs58_decode (t.bs58_encode b) ≡ some b
  -- A digit carries less than a byte.
  pub bs58_decode-length : (s b : Bytes) → t.bs58_decode s ≡ some b → length b ≤ length s
  pub aes_decrypt-encrypt :
      (key nonce text ciphertext : Bytes)
      → t.aes_encrypt key nonce text ≡ some ciphertext
      → t.aes_decrypt key nonce ciphertext ≡ some text
  pub from_slice-to_vec :
      (w : WalletData) (b : Bytes) → t.to_vec w ≡ some b → t.from_slice b ≡ some w
