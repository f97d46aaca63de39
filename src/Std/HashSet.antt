-- ===== src/Std/HashSet.antt =====
-- `std::collections::HashSet`.
use cipher_x.Prelude.{ℕ, ◌≡◌, refl, ite, List, [], ◌∷◌, arith, Bool, true, false, length}

pub record HashSet {ℓ} (K : Type ℓ) : Type ℓ where
  pub items : List K

module _ {ℓ} {K : Type ℓ} where
  abbrev pub empty : HashSet K
  empty = record { items = [] }

  unfoldable pub len : HashSet K → ℕ
  len s = length s.items

module _ {ℓ} {K : Type ℓ} (dec : Discrete K) where
  occurs : K → List K → Bool
  occurs k [] = false
  occurs k (j ∷ l) = ite (dec j k) true (occurs k l)

  unfoldable pub contains : K → HashSet K → Bool
  unfolding occurs
  contains k s = occurs k s.items

  -- The set after `insert`, and whether the key was new.
  unfoldable pub insert : K → HashSet K → HashSet K × Bool
  unfolding contains
  insert k s = elim (contains k s) [
    | true ↦ (s, false)
    | false ↦ (record { items = k ∷ s.items }, true)
  ]

  pub contains-insert :
      (k j : K) (s : HashSet K) → contains j (insert k s).0 ≡ ite (dec k j) true (contains j s)
  unfolding contains insert
  contains-insert k j s = ground arith

  pub insert_is_new :
      (k : K) (s : HashSet K)
      → (insert k s).1 ≡ (elim (contains k s) [ true ↦ false | false ↦ true ])
  unfolding insert
  insert_is_new k s = ground arith

  pub contains-empty : (k : K) → contains k empty ≡ false
  unfolding contains
  contains-empty k = refl

pub ruleset set_laws = (contains-insert, contains-empty)
