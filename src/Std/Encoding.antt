-- ===== src/Std/Encoding.antt =====
-- `to_le_bytes`, `to_be_bytes` and their inverses, and `concat` of byte strings.
use mathlib.Core.List.{reverse, reverse_aux, reverse-reverse}
use Prim.Native.Char.{code}
use Prim.Native.String.{String}
use native.Mathlib.Nat.{pow-suc}
use cipher_x.Prelude.{
  ℕ, zero, suc, ◌+◌, ◌*◌, ◌/◌, ◌%◌, ◌^◌, ◌<◌, ◌≡◌, refl, ap, ◌∙◌, [], ◌∷◌, arith, Bytes, length,
}

-- The `k` low bytes of `n`, least significant first.
unfoldable pub le_bytes : ℕ → ℕ → Bytes
le_bytes zero n = []
le_bytes (suc k) n = (n % 256) ∷ le_bytes k (n / 256)

unfoldable pub of_le_bytes : Bytes → ℕ
of_le_bytes [] = 0
of_le_bytes (b ∷ bs) = b + 256 * of_le_bytes bs

unfoldable pub be_bytes : ℕ → ℕ → Bytes
unfolding le_bytes
be_bytes k n = reverse (le_bytes k n)

unfoldable pub of_be_bytes : Bytes → ℕ
unfolding of_le_bytes
of_be_bytes bs = of_le_bytes (reverse bs)

pub length-le_bytes : (k n : ℕ) → length (le_bytes k n) ≡ k
unfolding le_bytes
length-le_bytes zero n = refl
length-le_bytes (suc k) n = ap suc (length-le_bytes k (n / 256))

length-reverse_aux : (l r : Bytes) → length (reverse_aux l r) ≡ length l + length r
length-reverse_aux [] r = omega arith
length-reverse_aux (x ∷ xs) r = omega (arith, length-reverse_aux xs (x ∷ r))

pub length-be_bytes : (k n : ℕ) → length (be_bytes k n) ≡ k
unfolding be_bytes
length-be_bytes k n = omega (arith, length-reverse_aux (le_bytes k n) [], length-le_bytes k n)

pub of_le_bytes-le_bytes : (k n : ℕ) → n < 256 ^ k → of_le_bytes (le_bytes k n) ≡ n
unfolding le_bytes of_le_bytes
of_le_bytes-le_bytes zero n h = omega arith
of_le_bytes-le_bytes (suc k) n h =
    omega (arith, of_le_bytes-le_bytes k (n / 256) (omega (arith, pow-suc 256 k)))

pub of_be_bytes-be_bytes : (k n : ℕ) → n < 256 ^ k → of_be_bytes (be_bytes k n) ≡ n
unfolding be_bytes of_be_bytes
of_be_bytes-be_bytes k n h =
    ap of_le_bytes (reverse-reverse (le_bytes k n)) ∙ of_le_bytes-le_bytes k n h

-- A byte-string literal.
abbrev pub ascii : String → Bytes
ascii String.[] = []
ascii (String.◌∷◌ c s) = code c ∷ ascii s
