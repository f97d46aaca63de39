-- ===== src/Core/Merkle/Root.antt =====
-- The reduction to a root, of src/core/block.rs.
use cipher_x.Prelude.{
  length-map, ℕ, zero, suc, ◌+◌, ◌/◌, ◌≤◌, ◌<◌, ◌≡◌, refl, ap, sym, ◌∙◌, List, [], ◌∷◌, ◌++◌,
  Option, some, Bytes, arith, length, length-append, map,
}
use cipher_x.Std.Options.{◌>>=◌}
use cipher_x.Core.Types.{Transaction, BlockHash}
use cipher_x.Core.Merkle.{next_level, reduce, first}
use cipher_x.Core.Block.{compute_tx_root, node_hash}
use cipher_x.Core.Transaction.{commitment_hash}
use cipher_x.Crates.{Crates}

module _ (node : Bytes → Bytes → Bytes) where
  length-next_level : (l : List Bytes) → length (next_level node l) ≡ (length l + 1) / 2
  unfolding next_level
  length-next_level [] = refl
  length-next_level (a ∷ []) = refl
  length-next_level (a ∷ b ∷ l) = omega (arith, length-next_level l)

  -- As much fuel as there are leaves leaves one node.
  reduce-one :
      (fuel : ℕ) (l : List Bytes)
      → 1 ≤ length l
      → length l ≤ fuel
      → (r : Bytes) × (reduce node fuel l ≡ some (r ∷ []))
  unfolding reduce
  reduce-one fuel [] h le = absurd (omega arith)
  reduce-one fuel (a ∷ []) h le = (a, refl)
  reduce-one zero (a ∷ b ∷ l) h le = absurd (omega arith)
  reduce-one (suc fuel) (a ∷ b ∷ l) h le =
      reduce-one fuel (next_level node (a ∷ b ∷ l)) (omega (arith, length-next_level (a ∷ b ∷ l)))
        (omega (arith, length-next_level (a ∷ b ∷ l)))

  -- More fuel changes nothing.
  reduce-suc :
      (fuel : ℕ) (l : List Bytes) → length l ≤ fuel → reduce node (suc fuel) l ≡ reduce node fuel l
  unfolding reduce
  reduce-suc fuel [] le = refl
  reduce-suc fuel (a ∷ []) le = refl
  reduce-suc zero (a ∷ b ∷ l) le = absurd (omega arith)
  reduce-suc (suc fuel) (a ∷ b ∷ l) le =
      reduce-suc fuel (next_level node (a ∷ b ∷ l)) (omega (arith, length-next_level (a ∷ b ∷ l)))

  next_level-doubled :
      (n : ℕ) (l : List Bytes) (x : Bytes)
      → length l ≡ n + n
      → next_level node (l ++ x ∷ x ∷ []) ≡ next_level node (l ++ x ∷ [])
  unfolding next_level
  next_level-doubled n [] x h = refl
  next_level-doubled n (a ∷ []) x h = absurd (omega arith)
  next_level-doubled zero (a ∷ b ∷ l) x h = absurd (omega arith)
  next_level-doubled (suc n) (a ∷ b ∷ l) x h =
      ap (◌∷◌ (node a b)) (next_level-doubled n l x (omega (arith, h)))

  reduce-doubled :
      (n : ℕ) (l : List Bytes) (x : Bytes)
      → length l ≡ suc n + suc n
      → reduce node (length (l ++ x ∷ x ∷ [])) (l ++ x ∷ x ∷ [])
        ≡ reduce node (length (l ++ x ∷ [])) (l ++ x ∷ [])
  unfolding reduce
  reduce-doubled n [] x h = absurd (omega arith)
  reduce-doubled n (a ∷ []) x h = absurd (omega arith)
  reduce-doubled n (a ∷ b ∷ l) x h =
      let same = next_level-doubled (suc n) (a ∷ b ∷ l) x h in
      let size = length-append l (x ∷ x ∷ []) in
      let size' = length-append l (x ∷ []) in
      let longer : length (l ++ x ∷ x ∷ []) ≡ suc (length (l ++ x ∷ [])) =
        omega (arith, size, size') in
      ap (λ f. reduce node (suc f) (next_level node (a ∷ b ∷ (l ++ x ∷ x ∷ [])))) longer
      ∙ ap (reduce node (suc (suc (length (l ++ x ∷ []))))) same
      ∙ reduce-suc (suc (length (l ++ x ∷ []))) (next_level node (a ∷ b ∷ (l ++ x ∷ [])))
          (omega (arith, length-next_level (a ∷ b ∷ (l ++ x ∷ [])), size'))

map-append :
    (f : Transaction → Bytes) (l m : List Transaction) → map f (l ++ m) ≡ map f l ++ map f m
map-append f [] m = refl
map-append f (x ∷ l) m = ap (◌∷◌ (f x)) (map-append f l m)

-- Every list of transactions has a root: pairing up ends with a single node, after as many rounds as
-- there are leaves at most, and that node is the root.
pub compute_tx_root-some :
    (c : Crates) (tx : Transaction) (txs : List Transaction)
    → let leaves = map (commitment_hash c) (tx ∷ txs) in
      (r : BlockHash) × (reduce (node_hash c) (length leaves) leaves ≡ some (r ∷ []))
      × (compute_tx_root c (tx ∷ txs) ≡ some r)
unfolding compute_tx_root
compute_tx_root-some c tx txs =
    let leaves = map (commitment_hash c) (tx ∷ txs) in
    let (r, e) = reduce-one (node_hash c) (length leaves) leaves (omega arith) (omega arith) in
    (r, e, ap (λ o. o >>= first) e)

root_of_leaves : Crates → List Bytes → Option BlockHash
root_of_leaves c leaves = reduce (node_hash c) (length leaves) leaves >>= first

compute_tx_root-cons :
    (c : Crates) (txs : List Transaction)
    → 0 < length txs
    → compute_tx_root c txs ≡ root_of_leaves c (map (commitment_hash c) txs)
unfolding compute_tx_root root_of_leaves
compute_tx_root-cons c [] h = absurd (omega arith)
compute_tx_root-cons c (tx ∷ txs) h = refl

-- After an even number of transactions, not zero, one more transaction and that same transaction
-- twice give the same root.
pub compute_tx_root-doubled :
    (c : Crates) (n : ℕ) (txs : List Transaction) (tx : Transaction)
    → length txs ≡ suc n + suc n
    → compute_tx_root c (txs ++ tx ∷ tx ∷ []) ≡ compute_tx_root c (txs ++ tx ∷ [])
unfolding root_of_leaves
compute_tx_root-doubled c n txs tx h =
    let f = commitment_hash c in
    compute_tx_root-cons c (txs ++ tx ∷ tx ∷ [])
      (omega (arith, length-append txs (tx ∷ tx ∷ []), h))
    ∙ ap (root_of_leaves c) (map-append f txs (tx ∷ tx ∷ []))
    ∙ ap (λ o. o >>= first)
        (reduce-doubled (node_hash c) n (map f txs) (f tx) (length-map f txs ∙ h))
    ∙ ap (root_of_leaves c) (sym (map-append f txs (tx ∷ [])))
    ∙ sym (compute_tx_root-cons c (txs ++ tx ∷ []) (omega (arith, length-append txs (tx ∷ []), h)))
