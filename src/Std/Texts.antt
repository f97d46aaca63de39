-- ===== src/Std/Texts.antt =====
-- `str::split_whitespace` and `join(" ")`, for texts in ASCII.
use cipher_x.Prelude.{
  ℕ, ◌≡◌, refl, sym, ap, ◌∙◌, Bool, true, false, not, Bool-cases, inl, inr, ◌&&◌, ◌||◌, List, [],
  ◌∷◌, ◌++◌, Bytes, leb, ◌==◌, all, arith,
}
use mathlib.Core.List.{append_assoc, append-nil}

unfoldable pub is_space : ℕ → Bool
is_space b = b == 32 || (leb 9 b && leb b 13)

abbrev flush : Bytes → List Bytes
flush [] = []
flush (b ∷ bs) = (b ∷ bs) ∷ []

-- The words of a text behind the part `cur` of a word.
words_from : Bytes → Bytes → List Bytes
words_from cur [] = flush cur
words_from cur (b ∷ bs) = elim (is_space b) [
  | true ↦ flush cur ++ words_from [] bs
  | false ↦ words_from (cur ++ b ∷ []) bs
]

unfoldable pub split_whitespace : Bytes → List Bytes
unfolding words_from
split_whitespace text = words_from [] text

unfoldable pub join : List Bytes → Bytes
join [] = []
join (w ∷ []) = w
join (w ∷ v ∷ ws) = w ++ 32 ∷ join (v ∷ ws)

abbrev pub no_space : ℕ → Bool
no_space x = not (is_space x)

-- A word: not empty, and without white space.
abbrev pub is_word : Bytes → Bool
is_word [] = false
is_word (b ∷ bs) = all no_space (b ∷ bs)

not_space : (b : ℕ) (bs : Bytes) → all no_space (b ∷ bs) ≡ true → is_space b ≡ false
not_space b bs h = elim (Bool-cases (is_space b)) [
  | inl e ↦ absurd (ground (arith, rw e at h))
  | inr e ↦ e
]

words_from-append :
    (cur w rest : Bytes)
    → all no_space w ≡ true
    → words_from cur (w ++ rest) ≡ words_from (cur ++ w) rest
unfolding words_from
words_from-append cur [] rest h = ap (λ x. words_from x rest) (sym (append-nil cur))
words_from-append cur (b ∷ bs) rest h =
    let e = not_space b bs h in
    rw (e, words_from)
      (words_from-append (cur ++ b ∷ []) bs rest (ground (arith, e))
        ∙ ap (λ x. words_from x rest) (append_assoc cur (b ∷ []) bs))

all_head : (w : Bytes) (ws : List Bytes) → all is_word (w ∷ ws) ≡ true → is_word w ≡ true
all_head w ws h = ground arith

all_tail : (w : Bytes) (ws : List Bytes) → all is_word (w ∷ ws) ≡ true → all is_word ws ≡ true
all_tail w ws h = ground arith

flush_word : (w : Bytes) → is_word w ≡ true → flush w ≡ w ∷ []
flush_word [] h = absurd (ground arith)
flush_word (b ∷ bs) h = refl

is_word-no_space : (w : Bytes) → is_word w ≡ true → all no_space w ≡ true
is_word-no_space [] h = refl
is_word-no_space (b ∷ bs) h = h

words_from-word : (w : Bytes) → is_word w ≡ true → words_from [] w ≡ w ∷ []
unfolding words_from
words_from-word w h =
    ap (words_from []) (sym (append-nil w))
    ∙ words_from-append [] w [] (is_word-no_space w h)
    ∙ flush_word w h

words_from-space :
    (w rest : Bytes) → is_word w ≡ true → words_from [] (w ++ 32 ∷ rest) ≡ w ∷ words_from [] rest
unfolding words_from is_space
words_from-space w rest h =
    words_from-append [] w (32 ∷ rest) (is_word-no_space w h)
    ∙ ap (λ x. x ++ words_from [] rest) (flush_word w h)

words_from-join : (ws : List Bytes) → all is_word ws ≡ true → words_from [] (join ws) ≡ ws
unfolding words_from join
words_from-join [] h = refl
words_from-join (w ∷ []) h = words_from-word w (all_head w [] h)
words_from-join (w ∷ v ∷ ws) h =
    words_from-space w (join (v ∷ ws)) (all_head w (v ∷ ws) h)
    ∙ ap (◌∷◌ w) (words_from-join (v ∷ ws) (all_tail w (v ∷ ws) h))

-- Words that are joined are split again.
pub split_whitespace-join :
    (ws : List Bytes) → all is_word ws ≡ true → split_whitespace (join ws) ≡ ws
unfolding split_whitespace
split_whitespace-join ws h = words_from-join ws h
