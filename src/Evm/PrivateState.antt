-- ===== src/Evm/PrivateState.antt =====
-- src/evm/private_state.rs: the encryption of storage slots. State roots are left out.
use cipher_x.Prelude.{
  ℕ, zero, suc, ◌+◌, ◌*◌, ◌/◌, ◌%◌, ◌^◌, ◌<◌, ◌≤◌, ◌≡◌, ◌≢◌, refl, ap, ◌∙◌, Option, none, some, [],
  ◌∷◌, ◌++◌, Bytes, Bytes-discrete, length, length-append, take, drop, take-append, drop-append,
  length-take, take-take, All, ltb, if◌then◌else◌, is_yes, arith,
}
use native.Mathlib.Nat.{pow-suc}
use cipher_x.Std.Encoding.{ascii}
use cipher_x.Crates.{Crates}

-- `a ^ b` on numbers of `k` bits.
unfoldable pub xor : ℕ → ℕ → ℕ → ℕ
xor zero a b = 0
xor (suc k) a b = (a % 2 + b % 2) % 2 + 2 * xor k (a / 2) (b / 2)

-- The loop over the bytes.
unfoldable pub xor_bytes : Bytes → Bytes → Bytes
unfolding xor
xor_bytes [] ks = []
xor_bytes (a ∷ xs) [] = []
xor_bytes (a ∷ xs) (k ∷ ks) = xor 8 a k ∷ xor_bytes xs ks

module _ (c : Crates) where
  unfoldable pub keystream : Bytes → Bytes → Bytes
  keystream contract_key slot_key =
      c.sha3_256 (ascii "CipherX_state_enc" ++ (contract_key ++ slot_key))

  unfoldable pub encrypt_slot : Bytes → Bytes → Bytes → Bytes
  unfolding xor_bytes keystream
  encrypt_slot value contract_key slot_key =
      let stream = keystream contract_key slot_key in xor_bytes value stream ++ take 16 stream

  unfoldable pub decrypt_slot : Bytes → Bytes → Bytes → Option Bytes
  unfolding xor_bytes keystream
  decrypt_slot encrypted contract_key slot_key =
      let stream = keystream contract_key slot_key in
      if ltb (length encrypted) 48
      then none
      else if is_yes (Bytes-discrete (take 16 stream) (take 16 (drop 32 encrypted)))
      then some (xor_bytes (take 32 encrypted) stream)
      else none

xor-xor : (k a b : ℕ) → a < 2 ^ k → xor k (xor k a b) b ≡ a
unfolding xor
xor-xor zero a b h = omega arith
xor-xor (suc k) a b h =
    let rest = xor-xor k (a / 2) (b / 2) (omega (arith, pow-suc 2 k)) in
    let bit = (a % 2 + b % 2) % 2 in
    let low : (bit + 2 * xor k (a / 2) (b / 2)) / 2 ≡ xor k (a / 2) (b / 2) = omega arith in
    rw (low, rest) (omega arith)

length-xor_bytes : (xs ks : Bytes) → length xs ≤ length ks → length (xor_bytes xs ks) ≡ length xs
unfolding xor_bytes
length-xor_bytes [] ks h = refl
length-xor_bytes (a ∷ xs) [] h = absurd (omega arith)
length-xor_bytes (a ∷ xs) (k ∷ ks) h = ap suc (length-xor_bytes xs ks (omega arith))

xor_bytes-xor_bytes :
    (xs ks : Bytes)
    → length xs ≤ length ks
    → All (λ a. a < 256) xs
    → xor_bytes (xor_bytes xs ks) ks ≡ xs
unfolding xor_bytes
xor_bytes-xor_bytes [] ks h b = refl
xor_bytes-xor_bytes (a ∷ xs) [] h b = absurd (omega arith)
xor_bytes-xor_bytes (a ∷ xs) (k ∷ ks) h b =
    rw (xor-xor 8 a k b.0) (ap (◌∷◌ a) (xor_bytes-xor_bytes xs ks (omega arith) b.1))

module _ (c : Crates) (value contract_key slot_key : Bytes) where
  abbrev stream : Bytes
  stream = keystream c contract_key slot_key

  encrypted_parts :
      length value ≡ 32
      → length stream ≡ 32
      → (length (encrypt_slot c value contract_key slot_key) ≡ 48)
        × (take 32 (encrypt_slot c value contract_key slot_key) ≡ xor_bytes value stream)
        × (take 16 (drop 32 (encrypt_slot c value contract_key slot_key)) ≡ take 16 stream)
  unfolding encrypt_slot
  encrypted_parts l k =
      let n : length (xor_bytes value stream) ≡ 32 =
        length-xor_bytes value stream (omega (arith, l, k)) ∙ l in
      let t : length (take 16 stream) ≡ 16 = length-take 16 stream (omega (arith, k)) in
      (
        length-append (xor_bytes value stream) (take 16 stream) ∙ omega (arith, n, t),
        take-append 32 (xor_bytes value stream) (take 16 stream) n,
        ap (take 16) (drop-append 32 (xor_bytes value stream) (take 16 stream) n)
            ∙ take-take 16 stream,
      )

  -- Where the hash of the keys has 32 bytes: a value of 32 bytes is read back under the keys that
  -- it was encrypted with; under keys whose hash starts with other 16 bytes, decryption fails.
  pub decrypt_slot-encrypt_slot :
      (other_contract other_slot : Bytes)
      → length value ≡ 32
      → All (λ a. a < 256) value
      → length stream ≡ 32
      → take 16 (keystream c other_contract other_slot) ≢ take 16 stream
      → (decrypt_slot c (encrypt_slot c value contract_key slot_key) contract_key slot_key
          ≡ some value)
        × (decrypt_slot c (encrypt_slot c value contract_key slot_key) other_contract other_slot
            ≡ none)
  unfolding decrypt_slot
  decrypt_slot-encrypt_slot oc os l b k d =
      let (n, v, t) = encrypted_parts l k in
      let back = xor_bytes-xor_bytes value stream (omega (arith, l, k)) b in
      (ground (arith, n, v, t, back), ground (arith, n, v, t, d))

take-xor_bytes :
    (n : ℕ) (xs ks : Bytes)
    → length xs ≤ length ks
    → take n (xor_bytes xs ks) ≡ xor_bytes (take n xs) (take n ks)
unfolding xor_bytes
take-xor_bytes zero xs ks h = refl
take-xor_bytes (suc n) [] ks h = refl
take-xor_bytes (suc n) (a ∷ xs) [] h = absurd (omega arith)
take-xor_bytes (suc n) (a ∷ xs) (k ∷ ks) h =
    ap (◌∷◌ (xor 8 a k)) (take-xor_bytes n xs ks (omega arith))

All-take : (P : ℕ → Type 0) (n : ℕ) (xs : Bytes) → All P xs → All P (take n xs)
All-take P zero xs h = tt
All-take P (suc n) [] h = tt
All-take P (suc n) (x ∷ xs) h = (h.0, All-take P n xs h.1)

-- Where the hash of the keys has 32 bytes: the first half of an encrypted value of 32 bytes, xored
-- with its tag, is the first half of the value.
pub encrypt_slot-reveals :
    (c : Crates) (value contract_key slot_key : Bytes)
    → length value ≡ 32
    → All (λ a. a < 256) value
    → length (keystream c contract_key slot_key) ≡ 32
    → xor_bytes
        (take 16 (take 32 (encrypt_slot c value contract_key slot_key)))
        (take 16 (drop 32 (encrypt_slot c value contract_key slot_key)))
      ≡ take 16 value
encrypt_slot-reveals c value ck sk l b k =
    let s = keystream c ck sk in
    let (n, v, t) = encrypted_parts c value ck sk l k in
    let short : length (take 16 value) ≡ 16 = length-take 16 value (omega (arith, l)) in
    let short' : length (take 16 s) ≡ 16 = length-take 16 s (omega (arith, k)) in
    rw (v, t, take-xor_bytes 16 value s (omega (arith, l, k)))
      (xor_bytes-xor_bytes (take 16 value) (take 16 s) (omega (arith, short, short'))
        (All-take _ 16 value b))
