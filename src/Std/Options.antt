-- ===== src/Std/Options.antt =====
-- `?` on options, and `collect` into an option.
use cipher_x.Prelude.{
  ℕ, zero, suc, ◌≡◌, refl, sym, ap, ◌∙◌, Option, none, some, inl, inr, Option-cases, List, [], ◌∷◌,
  map, get_elem?, arith,
}

infixl 5 ◌>>=◌
abbrev pub ◌>>=◌ {ℓ} : {A B : Type ℓ} → Option A → (A → Option B) → Option B
none >>= f = none
some a >>= f = f a

-- What holds of a result, if there is one.
pub data OnSome {ℓ κ} {A : Type ℓ} (P : A → Type κ) : Option A → Type (ℓ ⊔ κ) where
  no_result : OnSome P none
  result : (a : A) → P a → OnSome P (some a)

pub OnSome->>= {ℓ κ} :
    {A B : Type ℓ} {P : B → Type κ} (m : Option A) (f : A → Option B)
    → ((a : A) → OnSome P (f a))
    → OnSome P (m >>= f)
OnSome->>= none f h = no_result
OnSome->>= (some a) f h = h a

-- `iter().map(f).collect::<Option<Vec<_>>>()`
unfoldable pub collect {ℓ} : {A B : Type ℓ} → (A → Option B) → List A → Option (List B)
collect f [] = some []
collect f (x ∷ xs) = do y ← f x; ys ← collect f xs; some (y ∷ ys)

collect_inv {ℓ} :
    {A B : Type ℓ}
    → (f : A → Option B) (x : A) (xs : List A) (ys : List B) → collect f (x ∷ xs) ≡ some ys
    → (z : B) × (zs : List B) × (f x ≡ some z) × (collect f xs ≡ some zs) × (z ∷ zs ≡ ys)
unfolding collect
collect_inv f x xs ys h = elim (Option-cases (f x)) [
  | inl e ↦ absurd (ground (arith, rw e at h))
  | inr (z, e) ↦ elim (Option-cases (collect f xs)) [
    | inl e' ↦ absurd (ground (arith, rw (e, e') at h))
    | inr (zs, e') ↦ (z, zs, e, e', ground (arith, rw (e, e') at h))
  ]
]

-- What is collected stands at the same places.
pub get_elem?-collect {ℓ} :
    {A B : Type ℓ}
    → (f : A → Option B) (xs : List A) (ys : List B) (i : ℕ) (x : A) → collect f xs ≡ some ys
    → get_elem? xs i ≡ some x
    → get_elem? ys i ≡ f x
get_elem?-collect f [] ys i x h at_i = absurd (ground arith)
get_elem?-collect f (y ∷ xs) ys zero x h at_i =
    let (z, zs, head, rest, e) = collect_inv f y xs ys h in
    rw (← e) (sym head ∙ ap f (ground arith))
get_elem?-collect f (y ∷ xs) ys (suc i) x h at_i =
    let (z, zs, head, rest, e) = collect_inv f y xs ys h in
    rw (← e) (get_elem?-collect f xs zs i x rest at_i)

pub collect-map {ℓ} :
    {A B : Type ℓ}
    → (f : A → Option B) (g : B → A) (ys : List B) → ((y : B) → f (g y) ≡ some y)
    → collect f (map g ys) ≡ some ys
unfolding collect
collect-map f g [] h = refl
collect-map f g (y ∷ ys) h = rw (h y, collect-map f g ys h) refl
