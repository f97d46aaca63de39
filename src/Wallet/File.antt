-- ===== src/Wallet/File.antt =====
-- The wallet file of src/bin/wallet.rs: `encrypt_wallet` and `decrypt_wallet`, with the random salt
-- and nonce as arguments.
pub mod RoundTrip
use cipher_x.Prelude.{
  ℕ, not, Bool, true, false, Option, none, some, Bytes, Bytes-discrete, length, ◌==◌, if◌then◌else◌,
  is_yes,
}
use cipher_x.Std.Encoding.{ascii}
use cipher_x.Std.Result.{Result, ok, err}
use cipher_x.Wallet.Data.{WalletData, EncryptedWallet, Codecs}

pub data FileError : Type 0 where
  unsupported_kdf invalid_salt invalid_nonce invalid_ciphertext invalid_nonce_length : FileError
  key_derivation serialization encryption wrong_password deserialization : FileError

infixl 5 ◌>>=◌
abbrev pub ◌>>=◌ :
    {A B : Type 0} → Result FileError A → (A → Result FileError B) → Result FileError B
ok a >>= f = f a
err e >>= f = err e

-- `ok_or(e)`
abbrev pub or_err : {A : Type 0} → FileError → Option A → Result FileError A
or_err e none = err e
or_err e (some a) = ok a

abbrev pub kdf_name : Bytes
kdf_name = ascii "argon2id-v1"

module _ (t : Codecs) where
  open t use {hex_encode, hex_decode, argon2id, aes_encrypt, aes_decrypt, to_vec, from_slice}

  unfoldable pub derive_encryption_key : Bytes → Bytes → Result FileError Bytes
  derive_encryption_key password salt = or_err key_derivation (argon2id password salt)

  unfoldable pub encrypt_wallet :
      WalletData → Bytes → Bytes → Bytes → Result FileError EncryptedWallet
  unfolding derive_encryption_key
  encrypt_wallet wallet password salt nonce_bytes = do
    key ← derive_encryption_key password salt
    plaintext ← or_err serialization (to_vec wallet)
    ciphertext ← or_err encryption (aes_encrypt key nonce_bytes plaintext)
    ok (record {
      nonce = hex_encode nonce_bytes;
      salt = hex_encode salt;
      ciphertext = hex_encode ciphertext;
      kdf = kdf_name;
      version = 2;
    })

  unfoldable pub open_ciphertext : Bytes → Bytes → Bytes → Bytes → Result FileError WalletData
  unfolding derive_encryption_key
  open_ciphertext password salt nonce_bytes ciphertext = do
    key ← derive_encryption_key password salt
    plaintext ← or_err wrong_password (aes_decrypt key nonce_bytes ciphertext)
    or_err deserialization (from_slice plaintext)

  unfoldable pub decrypt_wallet : EncryptedWallet → Bytes → Result FileError WalletData
  unfolding open_ciphertext
  decrypt_wallet encrypted password =
      if not (is_yes (Bytes-discrete encrypted.kdf kdf_name)) then err unsupported_kdf else do
        salt ← or_err invalid_salt (hex_decode encrypted.salt)
        nonce_bytes ← or_err invalid_nonce (hex_decode encrypted.nonce)
        ciphertext ← or_err invalid_ciphertext (hex_decode encrypted.ciphertext)
        (if not (length nonce_bytes == 12)
            then err invalid_nonce_length
            else open_ciphertext password salt nonce_bytes ciphertext)
