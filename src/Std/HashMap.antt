-- ===== src/Std/HashMap.antt =====
-- `std::collections::HashMap`. Rust leaves the order of iteration open; here it is the order of
-- first insertion.
use cipher_x.Prelude.{
  ℕ, suc, ◌≤◌, ◌≡◌, refl, ap, ite, ◌⊎◌, inl, inr, Option, none, some, ◌⊎◌, inl, inr, List, [], ◌∷◌,
  ◌++◌, arith, length, All, Bool, true, false, if◌then◌else◌,
}

pub record HashMap {ℓ} (K V : Type ℓ) : Type ℓ where
  pub entries : List (K × V)

module _ {ℓ} {K V : Type ℓ} where
  abbrev pub empty : HashMap K V
  empty = record { entries = [] }

  abbrev vals : List (K × V) → List V
  vals [] = []
  vals ((k, v) ∷ l) = v ∷ vals l

  -- `values()`
  unfoldable pub values : HashMap K V → List V
  values m = vals m.entries

  -- `len()`
  unfoldable pub len : HashMap K V → ℕ
  len m = length m.entries

module _ {ℓ} {K V : Type ℓ} (dec : Discrete K) where
  find : K → List (K × V) → Option V
  find k [] = none
  find k ((j, v) ∷ l) = ite (dec j k) (some v) (find k l)

  put : K → V → List (K × V) → List (K × V)
  put k v [] = (k, v) ∷ []
  put k v ((j, w) ∷ l) = ite (dec j k) ((k, v) ∷ l) ((j, w) ∷ put k v l)

  without : K → List (K × V) → List (K × V)
  without k [] = []
  without k ((j, w) ∷ l) = let rest = without k l in ite (dec j k) rest ((j, w) ∷ rest)

  unfoldable pub get : K → HashMap K V → Option V
  unfolding find
  get k m = find k m.entries

  unfoldable pub contains_key : K → HashMap K V → Bool
  unfolding get
  contains_key k m = elim (get k m) [ none ↦ false | some _ ↦ true ]

  unfoldable pub insert : K → V → HashMap K V → HashMap K V
  unfolding put
  insert k v m = record { entries = put k v m.entries }

  unfoldable pub remove : K → HashMap K V → HashMap K V
  unfolding without
  remove k m = record { entries = without k m.entries }

  kept : (V → Bool) → List (K × V) → List (K × V)
  kept p [] = []
  kept p ((j, w) ∷ l) = let rest = kept p l in if p w then (j, w) ∷ rest else rest

  -- `retain(|_, v| p(v))`
  unfoldable pub retain : (V → Bool) → HashMap K V → HashMap K V
  unfolding kept
  retain p m = record { entries = kept p m.entries }

  find-kept :
      (p : V → Bool) (k : K) (v : V) (l : List (K × V))
      → find k l ≡ some v
      → p v ≡ true
      → find k (kept p l) ≡ some v
  unfolding find kept
  find-kept p k v [] e h = e
  find-kept p k v ((j, w) ∷ l) e h = ground (arith, find-kept p k v l)

  pub get-retain :
      (p : V → Bool) (k : K) (v : V) (m : HashMap K V)
      → get k m ≡ some v
      → p v ≡ true
      → get k (retain p m) ≡ some v
  unfolding get retain
  get-retain p k v m e h = find-kept p k v m.entries e h

  find-put :
      (k j : K) (v : V) (l : List (K × V)) → find j (put k v l) ≡ ite (dec k j) (some v) (find j l)
  unfolding find put
  find-put k j v [] = refl
  find-put k j v ((i, w) ∷ l) = ground (arith, find-put k j v l)

  find-without : (k j : K) (l : List (K × V)) → find j (without k l) ≡ ite (dec k j) none (find j l)
  unfolding find without
  find-without k j [] = ground arith
  find-without k j ((i, w) ∷ l) = ground (arith, find-without k j l)

  pub get-insert :
      (k j : K) (v : V) (m : HashMap K V) → get j (insert k v m) ≡ ite (dec k j) (some v) (get j m)
  unfolding get insert
  get-insert k j v m = find-put k j v m.entries

  pub get-remove : (k j : K) (m : HashMap K V) → get j (remove k m) ≡ ite (dec k j) none (get j m)
  unfolding get remove
  get-remove k j m = find-without k j m.entries

  pub get-insert_self : (k : K) (v : V) (m : HashMap K V) → get k (insert k v m) ≡ some v
  get-insert_self k v m = ground (arith, get-insert k k v m)

  pub get-insert_other :
      (k j : K) (v : V) (m : HashMap K V) → (k ≡ j → ⊥) → get j (insert k v m) ≡ get j m
  get-insert_other k j v m h = elim (dec k j) [
    | yes e ↦ absurd (h e)
    | no d ↦ ground (arith, get-insert k j v m)
  ]

  put_same : (k : K) (v : V) (l : List (K × V)) → find k l ≡ some v → put k v l ≡ l
  unfolding find put
  put_same k v [] h = cc
  put_same k v ((j, w) ∷ l) h = ground (arith, put_same k v l)

  -- To insert what is there already changes nothing.
  pub insert_same : (k : K) (v : V) (m : HashMap K V) → get k m ≡ some v → insert k v m ≡ m
  unfolding get insert
  insert_same k v m h = ap (λ l. record { entries = l }) (put_same k v m.entries h)

  -- Where a value found after an insertion comes from.
  pub get-insert_inv :
      (k j : K) (v w : V) (m : HashMap K V)
      → get j (insert k v m) ≡ some w
      → ((k ≡ j) × (v ≡ w)) ⊎ (get j m ≡ some w)
  get-insert_inv k j v w m h = elim (dec k j) [
    | yes e ↦ inl (e, ground (arith, get-insert k j v m))
    | no d ↦ inr (ground (arith, get-insert k j v m))
  ]

  All-find {κ} :
      (P : V → Type κ) (k : K) (v : V) (l : List (K × V)) → All P (vals l) → find k l ≡ some v → P v
  unfolding find
  All-find P k v [] h e = cc
  All-find P k v ((j, w) ∷ l) h e = elim (dec j k) [
    | yes p ↦ let same : w ≡ v = ground arith in rw (← same) h.0
    | no p ↦ All-find P k v l h.1 (ground arith)
  ]

  vals-put_fresh :
      (k : K) (v : V) (l : List (K × V)) → find k l ≡ none → vals (put k v l) ≡ vals l ++ v ∷ []
  unfolding find put
  vals-put_fresh k v [] h = refl
  vals-put_fresh k v ((j, w) ∷ l) h = ground (arith, vals-put_fresh k v l)

  -- What holds of all values holds of a value that is found.
  pub All-get {κ} :
      (P : V → Type κ) (k : K) (v : V) (m : HashMap K V) → All P (values m) → get k m ≡ some v → P v
  unfolding get values
  All-get P k v m h e = All-find P k v m.entries h e

  -- A new key goes to the end.
  pub values-insert_fresh :
      (k : K) (v : V) (m : HashMap K V)
      → get k m ≡ none
      → values (insert k v m) ≡ values m ++ v ∷ []
  unfolding get insert values
  values-insert_fresh k v m h = vals-put_fresh k v m.entries h

  length-put :
      (k : K) (v : V) (l : List (K × V))
      → length (put k v l) ≡ (elim (find k l) [ none ↦ suc (length l) | some _ ↦ length l ])
  unfolding find put
  length-put k v [] = refl
  length-put k v ((j, w) ∷ l) = ground (arith, length-put k v l)

  -- The size grows by one exactly for a new key.
  pub len-insert :
      (k : K) (v : V) (m : HashMap K V)
      → len (insert k v m) ≡ (elim (get k m) [ none ↦ suc (len m) | some _ ↦ len m ])
  unfolding get insert len
  len-insert k v m = length-put k v m.entries

  length-without-le : (k : K) (l : List (K × V)) → length (without k l) ≤ length l
  unfolding without
  length-without-le k [] = omega arith
  length-without-le k ((j, w) ∷ l) = ground (arith, length-without-le k l)

  pub len-remove-le : (k : K) (m : HashMap K V) → len (remove k m) ≤ len m
  unfolding remove len
  len-remove-le k m = length-without-le k m.entries

  pub get-empty : (k : K) → get k empty ≡ none
  unfolding get
  get-empty k = refl

pub ruleset map_laws = (get-insert, get-remove, get-empty)
