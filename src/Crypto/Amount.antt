-- ===== src/Crypto/Amount.antt =====
-- Encrypted amounts of src/crypto/ringct.rs.
use cipher_x.Prelude.{
  ℕ, ◌+◌, ◌<◌, ◌≡◌, u64_mod, refl, ◌++◌, not, Option, none, some, Bytes, length, take, drop, ◌==◌,
  if◌then◌else◌,
}
use cipher_x.Std.Encoding.{le_bytes, of_le_bytes, length-le_bytes, of_le_bytes-le_bytes, ascii}
use cipher_x.Std.Options.{◌>>=◌}
use cipher_x.Crates.{Crates}

abbrev pub amount_ct_len : ℕ
amount_ct_len = 24

module _ (c : Crates) where
  open c use {sha3_512, Scalar, scalar_to_bytes, aead_encrypt, aead_decrypt}

  -- The key and the nonce.
  unfoldable pub derive_amount_key_nonce : Scalar → Bytes × Bytes
  derive_amount_key_nonce shared_secret =
      let out = sha3_512 (ascii "CipherX_amount_enc_v2" ++ scalar_to_bytes shared_secret) in
      (take 32 out, take 12 (drop 32 out))

  unfoldable pub encrypt_amount : ℕ → Scalar → Bytes
  unfolding derive_amount_key_nonce
  encrypt_amount amount shared_secret =
      let (key, nonce) = derive_amount_key_nonce shared_secret in
      aead_encrypt key nonce (le_bytes 8 amount)

  -- `none` on a wrong length or a failed authentication.
  unfoldable pub decrypt_amount : Bytes → Scalar → Option ℕ
  unfolding derive_amount_key_nonce
  decrypt_amount encrypted shared_secret =
      if not (length encrypted == amount_ct_len)
      then none
      else let (key, nonce) = derive_amount_key_nonce shared_secret in
        aead_decrypt key nonce encrypted
        >>= (λ pt. if not (length pt == 8) then none else some (of_le_bytes pt))

-- The documented behaviour of an AEAD: what a key encrypted it decrypts, and the tag has 16 bytes.
pub record AeadLaws (c : Crates) : Type 0 where
  pub decrypt-encrypt :
      (key nonce text : Bytes)
      → c.aead_decrypt key nonce (c.aead_encrypt key nonce text) ≡ some text
  pub length-encrypt :
      (key nonce text : Bytes) → length (c.aead_encrypt key nonce text) ≡ length text + 16

-- An encrypted amount of 64 bits decrypts, under the same shared secret, to the amount.
pub decrypt_amount-encrypt_amount :
    {c : Crates}
    → AeadLaws c
    → (amount : ℕ) (shared_secret : c.Scalar) → amount < u64_mod
    → decrypt_amount c (encrypt_amount c amount shared_secret) shared_secret ≡ some amount
unfolding decrypt_amount encrypt_amount derive_amount_key_nonce le_bytes
decrypt_amount-encrypt_amount {c} laws amount shared_secret bound =
    rw
      (
        laws.length-encrypt (derive_amount_key_nonce c shared_secret).0
            (derive_amount_key_nonce c shared_secret).1 (le_bytes 8 amount),
        length-le_bytes 8 amount,
        laws.decrypt-encrypt (derive_amount_key_nonce c shared_secret).0
            (derive_amount_key_nonce c shared_secret).1 (le_bytes 8 amount),
        of_le_bytes-le_bytes 8 amount bound,
      )
      refl
