-- ===== src/Wallet/Scan/Sums.antt =====
-- Sums over the outputs that the scan of src/bin/wallet.rs finds.

use cipher_x.Prelude.{
  ℕ, ◌+◌, ◌-◌, ◌≤◌, ◌<◌, ◌≡◌, refl, sym, Bool, false, ◌&&◌, Option, none, some, List, [], ◌∷◌, ◌++◌,
  Bytes, filter, leb, min, saturating_add, u64_mod, Bool-cases, Option-cases, inl, inr, arith,
}
use cipher_x.Crates.{Crates}
use cipher_x.Wallet.Data.{Codecs}
use cipher_x.Wallet.Address.{is_some}
use cipher_x.Wallet.Client.{or_zero, DetectedOutput}
use cipher_x.Wallet.Scan.{secret_of, own_outputs, amount_of, total_of}

abbrev pub in_blocks : ℕ → ℕ → DetectedOutput → Bool
in_blocks from to o = leb from o.block_height && leb o.block_height to

unfoldable pub sum_by : (DetectedOutput → ℕ) → List DetectedOutput → ℕ
sum_by f [] = 0
sum_by f (o ∷ os) = f o + sum_by f os

pub sum_by-append :
    (f : DetectedOutput → ℕ) (xs ys : List DetectedOutput)
    → sum_by f (xs ++ ys) ≡ sum_by f xs + sum_by f ys
unfolding sum_by
sum_by-append f [] ys = omega arith
sum_by-append f (x ∷ xs) ys = omega (arith, sum_by-append f xs ys)

-- Blocks `low + 1` to `m`, then `m + 1` to `n`.
pub sum_by-split :
    (f : DetectedOutput → ℕ) (low m n : ℕ) (os : List DetectedOutput)
    → low ≤ m
    → m ≤ n
    → sum_by f (filter (in_blocks (low + 1) m) os) + sum_by f (filter (in_blocks (m + 1) n) os)
      ≡ sum_by f (filter (in_blocks (low + 1) n) os)
unfolding sum_by
sum_by-split f low m n [] l h = omega arith
sum_by-split f low m n (o ∷ os) l h = ground (arith, sum_by-split f low m n os l h)

-- Leaving out what weighs nothing changes no sum.
sum_by-filter :
    (f : DetectedOutput → ℕ) (p : DetectedOutput → Bool) (os : List DetectedOutput)
    → ((o : DetectedOutput) → p o ≡ false → f o ≡ 0)
    → sum_by f (filter p os) ≡ sum_by f os
unfolding sum_by
sum_by-filter f p [] h = refl
sum_by-filter f p (o ∷ os) h = elim (Bool-cases (p o)) [
  | inl e ↦ ground (arith, e, sum_by-filter f p os h)
  | inr e ↦ ground (arith, e, sum_by-filter f p os h, h o e)
]

sum_by_zero :
    (f : DetectedOutput → ℕ) (os : List DetectedOutput)
    → ((o : DetectedOutput) → f o ≡ 0)
    → sum_by f os ≡ 0
unfolding sum_by
sum_by_zero f [] h = refl
sum_by_zero f (o ∷ os) h = omega (arith, h o, sum_by_zero f os h)

pub sum_by-none :
    (f : DetectedOutput → ℕ) (low : ℕ) (os : List DetectedOutput)
    → sum_by f (filter (in_blocks (low + 1) low) os) ≡ 0
unfolding sum_by
sum_by-none f low [] = refl
sum_by-none f low (o ∷ os) = ground (arith, sum_by-none f low os)

module _ (c : Crates) (t : Codecs) where
  -- The output is found by the keys.
  unfoldable pub owned_by : Option Bytes → Option Bytes → DetectedOutput → Bool
  owned_by (some view_key) (some spend_pubkey) o = is_some (secret_of c t view_key spend_pubkey o)
  owned_by _ _ o = false

  pub own_outputs-sum :
      (view_key spend_pubkey : Option Bytes) (f : DetectedOutput → ℕ) (os : List DetectedOutput)
      → ((o : DetectedOutput) → owned_by view_key spend_pubkey o ≡ false → f o ≡ 0)
      → sum_by f (own_outputs c t view_key spend_pubkey os) ≡ sum_by f os
  unfolding own_outputs owned_by sum_by
  own_outputs-sum (some v) (some s) f os h =
      sum_by-filter f (λ o. is_some (secret_of c t v s o)) os h
  own_outputs-sum none s f os h = sym (sum_by_zero f os (λ o. h o refl))
  own_outputs-sum (some v) none f os h = sym (sum_by_zero f os (λ o. h o refl))

  unfoldable pub weight : Bytes → Bytes → DetectedOutput → ℕ
  weight v s o = or_zero (amount_of c t v s o)

  -- An output of another key has no amount.
  pub weight-not_owned :
      (v s : Bytes) (o : DetectedOutput) → is_some (secret_of c t v s o) ≡ false → weight v s o ≡ 0
  unfolding weight amount_of
  weight-not_owned v s o h = elim (Option-cases (secret_of c t v s o)) [
    | inl e ↦ rw e refl
    | inr (b, e) ↦ absurd (ground (arith, rw e at h))
  ]

  -- Saturating additions give the sum, or the largest number.
  pub total_of_lem :
      (v s : Bytes) (total : ℕ) (os : List DetectedOutput)
      → total < u64_mod
      → total_of c t v s total os ≡ min (total + sum_by (weight v s) os) (u64_mod - 1)
  unfolding total_of sum_by weight
  total_of_lem v s total [] h = omega arith
  total_of_lem v s total (o ∷ os) h = elim (Option-cases (amount_of c t v s o)) [
    | inl e ↦ rw e (omega (arith, total_of_lem v s total os h))
    | inr (n, e) ↦
        let bound : saturating_add total n < u64_mod = omega arith in
        rw e (omega (arith, total_of_lem v s (saturating_add total n) os bound))
  ]
