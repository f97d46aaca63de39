-- ===== src/Wallet/Mnemonic/RoundTrip.antt =====
-- Phrases of src/bin/wallet.rs: the word list, and what is validated.
use cipher_x.Prelude.{
  ℕ, zero, suc, ◌+◌, ◌*◌, ◌^◌, ◌-◌, ◌<◌, ◌≡◌, ◌≢◌, subst, refl, ap, Bool, true, ◌&&◌, some, List,
  [], ◌∷◌, Bytes, Bytes-discrete, map, length, take, get_elem?, ltb, arith, all, All, is_yes-no,
  is_yes_of, length-map, length-take, get_elem?_in_range,
}
use cipher_x.Std.Texts.{split_whitespace, join, is_word, split_whitespace-join}
use cipher_x.Std.Options.{collect}
use cipher_x.Wallet.Words.{words}
use cipher_x.Wallet.Mnemonic.{
  mnemonic_words, or_empty, word_at, generate_mnemonic, position, validate_mnemonic,
}

-- A word of at most 8 letters as a number: words in the order of the alphabet have growing numbers.
rank_from : ℕ → Bytes → ℕ
rank_from k [] = 0
rank_from k (b ∷ bs) = b * 256 ^ k + rank_from (k - 1) bs

rank : Bytes → ℕ
unfolding rank_from
rank w = rank_from 7 w

growing : ℕ → List Bytes → Bool
growing low [] = true
growing low (w ∷ ws) = ltb low (rank w) && growing (rank w) ws

words-growing : growing 0 words ≡ true
unfolding growing rank words
words-growing = refl

words-length : length words ≡ 256
unfolding words
words-length = refl

words_ok : all is_word words ≡ true
unfolding words cipher_x.Std.Texts.is_space
words_ok = refl

head_rank : (low : ℕ) (w : Bytes) (ws : List Bytes) → growing low (w ∷ ws) ≡ true → low < rank w
unfolding growing
head_rank low w ws g = ground arith

-- In a growing list a word is found at its place, and its rank is above the bound.
position-growing :
    (low : ℕ) (ws : List Bytes) (i : ℕ) (w : Bytes)
    → growing low ws ≡ true
    → get_elem? ws i ≡ some w
    → (position w ws ≡ some i) × (low < rank w)
unfolding position growing
position-growing low [] i w g h = absurd (ground arith)
position-growing low (x ∷ ws) zero w g h =
    let e : x ≡ w = ground arith in
    rw (is_yes_of (Bytes-discrete x w) e) (refl, subst (λ v. low < rank v) e (ground arith))
position-growing low (x ∷ ws) (suc i) w g h =
    let later = position-growing (rank x) ws i w (ground arith) h in
    let differs : x ≢ w = λ e. absurd (omega (arith, ap rank e, later.1)) in
    (
      rw (is_yes-no (Bytes-discrete x w) differs, later.0) refl,
      omega (arith, later.1, head_rank low x ws g),
    )

word_at_lem : (i : ℕ) (w : Bytes) → get_elem? words i ≡ some w → word_at i ≡ w
unfolding word_at
word_at_lem i w e = ap or_empty e

position-word_at : (i : ℕ) → i < 256 → position (word_at i) words ≡ some i
position-word_at i h =
    let (w, e) = get_elem?_in_range words i (omega (arith, words-length)) in
    rw (word_at_lem i w e) (position-growing 0 words i w words-growing e).0

all-get :
    (p : Bytes → Bool) (ws : List Bytes) (i : ℕ) (w : Bytes)
    → all p ws ≡ true
    → get_elem? ws i ≡ some w
    → p w ≡ true
all-get p [] i w h e = absurd (ground arith)
all-get p (x ∷ ws) zero w h e = ground arith
all-get p (x ∷ ws) (suc i) w h e = all-get p ws i w (ground arith) e

word_at-is_word : (i : ℕ) → i < 256 → is_word (word_at i) ≡ true
word_at-is_word i h =
    let (w, e) = get_elem?_in_range words i (omega (arith, words-length)) in
    rw (word_at_lem i w e) (all-get is_word words i w words_ok e)

word_at-is_words : (xs : Bytes) → All (λ b. b < 256) xs → all is_word (map word_at xs) ≡ true
word_at-is_words [] h = refl
word_at-is_words (x ∷ xs) h = rw (word_at-is_word x h.0) (word_at-is_words xs h.1)

collect-word_at :
    (xs : Bytes)
    → All (λ b. b < 256) xs
    → collect (λ w. position w words) (map word_at xs) ≡ some xs
unfolding collect
collect-word_at [] h = refl
collect-word_at (x ∷ xs) h = rw (position-word_at x h.0, collect-word_at xs h.1) refl

All-take : (n : ℕ) (xs : Bytes) → All (λ b. b < 256) xs → All (λ b. b < 256) (take n xs)
All-take zero xs h = tt
All-take (suc n) [] h = tt
All-take (suc n) (x ∷ xs) h = (h.0, All-take n xs h.1)

-- The phrase made of 32 bytes of entropy is validated, and its indices are the first 24 bytes.
pub validate_mnemonic-generate_mnemonic :
    (entropy : Bytes)
    → length entropy ≡ 32
    → All (λ b. b < 256) entropy
    → validate_mnemonic (generate_mnemonic entropy) ≡ some (take mnemonic_words entropy)
unfolding validate_mnemonic generate_mnemonic
validate_mnemonic-generate_mnemonic entropy size bytes =
    let xs = take mnemonic_words entropy in
    let small = All-take mnemonic_words entropy bytes in
    rw
      (
        split_whitespace-join (map word_at xs) (word_at-is_words xs small),
        length-map word_at xs,
        length-take mnemonic_words entropy (omega (arith, size)),
      )
      (collect-word_at xs small)
