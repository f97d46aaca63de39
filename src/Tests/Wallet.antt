-- ===== src/Tests/Wallet.antt =====
-- The wallet over the field of three elements, with plain texts in place of hexadecimal and base 58.
use cipher_x.Prelude.{
  ℕ, zero, suc, ◌<◌, ◌≡◌, ◌≢◌, refl, sym, ap, ◌∙◌, true, Option, none, some, [], ◌∷◌, ◌++◌, Bytes,
  length, take, drop, replicate, ◌==◌, if◌then◌else◌, All, arith, take-append, drop-append,
}
use cipher_x.Std.Encoding.{ascii}
use cipher_x.Std.Options.{◌>>=◌}
use cipher_x.Std.Result.{ok, err}
use cipher_x.Wallet.Data.{WalletData, EncryptedWallet, Codecs, CodecLaws}
use cipher_x.Wallet.Mnemonic.{mnemonic_words, generate_mnemonic, validate_mnemonic}
use cipher_x.Wallet.Mnemonic.RoundTrip.{validate_mnemonic-generate_mnemonic}
use cipher_x.Wallet.Address.{derive_keys, parse_cx1_address, stealth_address, parse_stealth_address}
use cipher_x.Wallet.Address.RoundTrip.{
  SizeLaws, parse_stealth_address-parse_cx1_address, parse_stealth_address-derive_keys,
}
use cipher_x.Wallet.File.{wrong_password, unsupported_kdf, kdf_name, encrypt_wallet, decrypt_wallet}
use cipher_x.Wallet.File.RoundTrip.{decrypt_wallet-encrypt_wallet}
use cipher_x.Tests.Field.{field}
use cipher_x.Tests.Toy.{head_or_zero}

-- A text with its length in front.
unfoldable pub put : Bytes → Bytes → Bytes
put b rest = length b ∷ b ++ rest

unfoldable pub get : Bytes → Option (Bytes × Bytes)
get [] = none
get (n ∷ b) = some (take n b, drop n b)

pub get-put : (b rest : Bytes) → get (put b rest) ≡ some (b, rest)
unfolding get put
get-put b rest = ap some (
    ap (λ x. (x, drop (length b) (b ++ rest))) (take-append (length b) b rest refl)
    ∙ ap (λ x. (b, x)) (drop-append (length b) b rest refl))

unfoldable pub write_wallet : WalletData → Bytes
write_wallet w = put w.mnemonic (
    put w.private_spend (
      put w.private_view (put w.public_spend (put w.public_view (put w.address (w.version ∷ []))))))

pub read_wallet : Bytes → Option WalletData
read_wallet b0 = do
  (mnemonic, b1) ← get b0
  (private_spend, b2) ← get b1
  (private_view, b3) ← get b2
  (public_spend, b4) ← get b3
  (public_view, b5) ← get b4
  (address, b6) ← get b5
  some (record {
    mnemonic = mnemonic;
    private_spend = private_spend;
    private_view = private_view;
    public_spend = public_spend;
    public_view = public_view;
    address = address;
    version = head_or_zero b6;
  })

read-write_wallet : (w : WalletData) → read_wallet (write_wallet w) ≡ some w
unfolding read_wallet write_wallet
read-write_wallet w =
    rw
      (
        get-put w.mnemonic _,
        get-put w.private_spend _,
        get-put w.private_view _,
        get-put w.public_spend _,
        get-put w.public_view _,
        get-put w.address _,
      )
      refl

-- The first byte of the key goes in front of the text.
abbrev seal : Bytes → Bytes → Bytes
seal key text = head_or_zero key ∷ text

abbrev unseal : Bytes → Bytes → Option Bytes
unseal key [] = none
unseal key (b ∷ text) = if b == head_or_zero key then some text else none

abbrev pub plain : Codecs
plain = record {
  hex_encode = λ b. b;
  hex_decode = λ b. some b;
  bs58_encode = λ b. b;
  bs58_decode = λ b. some b;
  argon2id = λ password salt. some (password ++ salt);
  aes_encrypt = λ key nonce text. some (seal key text);
  aes_decrypt = λ key nonce text. unseal key text;
  to_vec = λ w. some (write_wallet w);
  from_slice = read_wallet;
}

some_inj : {A : Type 0} (a b : A) → ◌≡◌ {A = Option A} (some a) (some b) → a ≡ b
some_inj a b e = cc

eqb_refl : (n : ℕ) → (n == n) ≡ true
eqb_refl n = ground arith

unseal-seal : (key text : Bytes) → unseal key (seal key text) ≡ some text
unseal-seal key text = rw (eqb_refl (head_or_zero key)) refl

pub plain-CodecLaws : CodecLaws plain
plain-CodecLaws = record {
  hex_decode-encode = λ b. refl;
  bs58_decode-encode = λ b. refl;
  bs58_decode-length = λ s b e. omega (arith, ap length (some_inj s b e));
  aes_decrypt-encrypt = λ key nonce text b e.
      ap (unseal key) (sym (some_inj (seal key text) b e)) ∙ unseal-seal key text;
  from_slice-to_vec =
      λ w b e. ap read_wallet (sym (some_inj (write_wallet w) b e)) ∙ read-write_wallet w;
}

pub field-SizeLaws : SizeLaws field
field-SizeLaws = record { length-sha3_256 = λ b. refl; length-compress = λ p. refl }

All-replicate : (n b : ℕ) → b < 256 → All (λ x. x < 256) (replicate n b)
All-replicate zero b h = tt
All-replicate (suc n) b h = (h, All-replicate n b h)

abbrev entropy : Bytes
entropy = replicate 32 200

validate_mnemonic-generate_mnemonic_example :
    validate_mnemonic (generate_mnemonic entropy) ≡ some (take mnemonic_words entropy)
validate_mnemonic-generate_mnemonic_example =
    validate_mnemonic-generate_mnemonic entropy refl (All-replicate 32 200 (omega arith))

abbrev pub phrase : Bytes
phrase = ascii "void"

parse_stealth_address-parse_cx1_address_example :
    parse_stealth_address field plain (ascii "CX1short")
    ≡ (parse_cx1_address field plain (ascii "CX1short") >>= stealth_address field plain)
parse_stealth_address-parse_cx1_address_example =
    parse_stealth_address-parse_cx1_address plain field-SizeLaws plain-CodecLaws (ascii "CX1short")

parse_stealth_address-derive_keys_example :
    (spend : Bytes) × (view : Bytes) × (some (derive_keys field plain phrase).public_spend
      ≡ some spend)
    × (some (derive_keys field plain phrase).public_view ≡ some view)
    × (parse_cx1_address field plain ((derive_keys field plain phrase).address)
        ≡ some (spend, view))
    × (parse_stealth_address field plain ((derive_keys field plain phrase).address)
        ≡ some (record { public_spend = spend; public_view = view }))
parse_stealth_address-derive_keys_example =
    parse_stealth_address-derive_keys plain field-SizeLaws plain-CodecLaws phrase

abbrev kept_wallet : WalletData
kept_wallet = record {
  mnemonic = phrase;
  private_spend = 1 ∷ [];
  private_view = 2 ∷ [];
  public_spend = 3 ∷ [];
  public_view = 4 ∷ [];
  address = 5 ∷ [];
  version = 2;
}

abbrev nonce_bytes : Bytes
nonce_bytes = replicate 12 7

other_kdf : ascii "pbkdf2" ≢ kdf_name
other_kdf e = absurd (ground arith)

decrypt_wallet-encrypt_wallet_example :
    (e : EncryptedWallet) × (encrypt_wallet plain kept_wallet (1 ∷ []) (9 ∷ []) nonce_bytes ≡ ok e)
    × (decrypt_wallet plain e (1 ∷ []) ≡ ok kept_wallet)
    × (decrypt_wallet plain e (2 ∷ []) ≡ err wrong_password)
    × (decrypt_wallet plain (record e { kdf = ascii "pbkdf2" }) (1 ∷ []) ≡ err unsupported_kdf)
decrypt_wallet-encrypt_wallet_example =
    decrypt_wallet-encrypt_wallet plain-CodecLaws kept_wallet (1 ∷ []) (9 ∷ []) nonce_bytes
      (1 ∷ 9 ∷ []) (write_wallet kept_wallet) (1 ∷ write_wallet kept_wallet) refl refl refl refl
      (2 ∷ []) (2 ∷ 9 ∷ []) refl refl (ascii "pbkdf2") other_kdf
