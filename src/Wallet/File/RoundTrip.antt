-- ===== src/Wallet/File/RoundTrip.antt =====
-- A wallet file that is written and opened, src/bin/wallet.rs.
use cipher_x.Prelude.{
  ◌≡◌, ◌≢◌, refl, none, some, Bytes, Bytes-discrete, length, is_yes_of, is_yes-no,
}
use cipher_x.Std.Result.{ok, err}
use cipher_x.Wallet.Data.{WalletData, EncryptedWallet, Codecs, CodecLaws}
use cipher_x.Wallet.File.{wrong_password, unsupported_kdf, kdf_name, encrypt_wallet, decrypt_wallet}

module _ {t : Codecs} (laws : CodecLaws t) where
  open t use {argon2id, aes_encrypt, aes_decrypt, to_vec}

  -- Where Argon2, the serialization and AES-GCM succeed, with a nonce of 12 bytes: the wallet is
  -- encrypted; the same password gives the wallet back; a password whose key AES-GCM does not
  -- authenticate is refused as wrong; and any other name of the key derivation is refused.
  pub decrypt_wallet-encrypt_wallet :
      (w : WalletData) (password salt nonce_bytes key plaintext ciphertext : Bytes)
      → argon2id password salt ≡ some key
      → to_vec w ≡ some plaintext
      → aes_encrypt key nonce_bytes plaintext ≡ some ciphertext
      → length nonce_bytes ≡ 12
      → (other other_key : Bytes) → argon2id other salt ≡ some other_key
      → aes_decrypt other_key nonce_bytes ciphertext ≡ none
      → (kdf : Bytes) → kdf ≢ kdf_name
      → (e : EncryptedWallet) × (encrypt_wallet t w password salt nonce_bytes ≡ ok e)
        × (decrypt_wallet t e password ≡ ok w)
        × (decrypt_wallet t e other ≡ err wrong_password)
        × (decrypt_wallet t (record e { kdf = kdf }) password ≡ err unsupported_kdf)
  unfolding encrypt_wallet decrypt_wallet
  decrypt_wallet-encrypt_wallet w password salt nonce_bytes key plaintext ciphertext hk hv he hn
        other other_key ho hd kdf h =
      (
        record {
          nonce = t.hex_encode nonce_bytes;
          salt = t.hex_encode salt;
          ciphertext = t.hex_encode ciphertext;
          kdf = kdf_name;
          version = 2;
        },
        rw (hk, hv, he) refl,
        rw
            (
              is_yes_of (Bytes-discrete kdf_name kdf_name) refl,
              laws.hex_decode-encode salt,
              laws.hex_decode-encode nonce_bytes,
              laws.hex_decode-encode ciphertext,
              hn,
              hk,
              laws.aes_decrypt-encrypt key nonce_bytes plaintext ciphertext he,
              laws.from_slice-to_vec w plaintext hv,
            )
            refl,
        rw
            (
              is_yes_of (Bytes-discrete kdf_name kdf_name) refl,
              laws.hex_decode-encode salt,
              laws.hex_decode-encode nonce_bytes,
              laws.hex_decode-encode ciphertext,
              hn,
              ho,
              hd,
            )
            refl,
        rw (is_yes-no (Bytes-discrete kdf kdf_name) h) refl,
      )
