-- ===== src/Wallet/Mnemonic.antt =====
-- src/bin/wallet.rs: the phrase of 24 words. Texts are in ASCII.
pub mod RoundTrip
use cipher_x.Prelude.{
  ℕ, zero, suc, Option, none, some, List, [], ◌∷◌, Bytes, Bytes-discrete, map, length, take,
  get_elem?, ◌==◌, if◌then◌else◌, is_yes,
}
use cipher_x.Std.Texts.{split_whitespace, join}
use cipher_x.Std.Options.{collect}
use cipher_x.Wallet.Words.{words}

abbrev pub mnemonic_words : ℕ
mnemonic_words = 24

abbrev pub or_empty : Option Bytes → Bytes
or_empty none = []
or_empty (some w) = w

-- `WORDS[idx]`, in range for a byte.
unfoldable pub word_at : ℕ → Bytes
word_at idx = or_empty (get_elem? words idx)

-- With the 32 bytes of entropy.
unfoldable pub generate_mnemonic : Bytes → Bytes
unfolding word_at
generate_mnemonic entropy = join (map word_at (take mnemonic_words entropy))

-- `WORDS.iter().position(|x| *x == w)`
unfoldable pub position : Bytes → List Bytes → Option ℕ
position w [] = none
position w (x ∷ xs) =
    if is_yes (Bytes-discrete x w)
    then some 0
    else elim (position w xs) [ none ↦ none | some i ↦ some (suc i) ]

unfoldable pub validate_mnemonic : Bytes → Option (List ℕ)
unfolding position
validate_mnemonic mnemonic =
    let mnem = split_whitespace mnemonic in
    if length mnem == mnemonic_words then collect (λ w. position w words) mnem else none
