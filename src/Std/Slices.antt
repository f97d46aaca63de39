-- ===== src/Std/Slices.antt =====
-- Parts of byte strings: `&bytes[off..off + n]`, and what is found in strings that are joined.
use mathlib.Core.List.{append_assoc}
use cipher_x.Prelude.{
  ℕ, zero, suc, ◌+◌, ◌*◌, ◌≡◌, sym, ap, ◌∙◌, ◌++◌, some, List, [], ◌∷◌, Bytes, length, All,
  get_elem?, take, drop, arith, length-append, take-append,
}

-- In range where it is used.
abbrev pub slice : ℕ → ℕ → Bytes → Bytes
slice off n bytes = take n (drop off bytes)

drop-skip :
    (pre x : Bytes) (off pos : ℕ) → pos ≡ length pre + off → drop pos (pre ++ x) ≡ drop off x
drop-skip [] x off pos h = ap (λ n. drop n x) (omega arith)
drop-skip (b ∷ pre) x off zero h = absurd (omega arith)
drop-skip (b ∷ pre) x off (suc pos) h = drop-skip pre x off pos (omega arith)

pub slice-skip :
    (pre x : Bytes) (off pos n : ℕ)
    → pos ≡ length pre + off
    → slice pos n (pre ++ x) ≡ slice off n x
slice-skip pre x off pos n h = ap (take n) (drop-skip pre x off pos h)

-- Byte strings, one after the other, before `x`.
abbrev pub blocks : List Bytes → Bytes → Bytes
blocks [] x = x
blocks (b ∷ bs) x = b ++ blocks bs x

-- Block `k` of 32 bytes, behind `pre`.
pub slice-blocks :
    (pre : Bytes) (bs : List Bytes) (x b : Bytes) (k pos : ℕ)
    → All (λ y. length y ≡ 32) bs
    → get_elem? bs k ≡ some b
    → pos ≡ length pre + 32 * k
    → slice pos 32 (pre ++ blocks bs x) ≡ b
slice-blocks pre [] x b k pos sizes at_k h = absurd (ground arith)
slice-blocks pre (y ∷ bs) x b zero pos sizes at_k h =
    slice-skip pre (y ++ blocks bs x) 0 pos 32 (omega arith)
    ∙ take-append 32 y (blocks bs x) sizes.0
    ∙ ground arith
slice-blocks pre (y ∷ bs) x b (suc k) pos sizes at_k h =
    let size = sizes.0 in
    ap (slice pos 32) (sym (append_assoc pre y (blocks bs x)))
    ∙ slice-blocks (pre ++ y) bs x b k pos sizes.1 at_k (omega (arith, length-append pre y))
