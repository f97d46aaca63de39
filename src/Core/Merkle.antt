-- ===== src/Core/Merkle.antt =====
-- The binary Merkle tree of src/core/block.rs and src/evm/private_state.rs, which differ in the hash of a
-- node only: levels are paired up, with the last node doubled if it has no partner.
pub mod Root
use cipher_x.Prelude.{ℕ, zero, suc, List, [], ◌∷◌, Option, none, some, Bytes}

module _ (node : Bytes → Bytes → Bytes) where
  -- The inner `while i < leaves.len()`.
  unfoldable pub next_level : List Bytes → List Bytes
  next_level [] = []
  next_level (l ∷ []) = node l l ∷ []
  next_level (l ∷ r ∷ rest) = node l r ∷ next_level rest

  -- `while leaves.len() > 1`, with fuel for the rounds; `none` where it runs out before the loop ends.
  unfoldable pub reduce : ℕ → List Bytes → Option (List Bytes)
  unfolding next_level
  reduce fuel [] = some []
  reduce fuel (l ∷ []) = some (l ∷ [])
  reduce zero (l ∷ r ∷ rest) = none
  reduce (suc fuel) (l ∷ r ∷ rest) = reduce fuel (next_level (l ∷ r ∷ rest))

-- `leaves[0]`; `none` is the panic of an index out of bounds.
abbrev pub first : List Bytes → Option Bytes
first [] = none
first (l ∷ _) = some l
