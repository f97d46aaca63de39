-- ===== src/Core/Chain/Append/History.antt =====
-- Sequences of blocks given to `append_block` of src/core/chain.rs: spent key images and the supply.
use cipher_x.Prelude.{
  ℕ, ◌≡◌, refl, subst, sym, true, List, [], ◌∷◌, ◌++◌, Bytes-discrete, All, Absent, Distinct,
  Absent-append, All-append, All-map, inl, inr, arith,
}
use mathlib.Core.List.{flat_map}
use cipher_x.Std.HashSet.{HashSet}
use cipher_x.Std.HashSet
use cipher_x.Std.Result.{Result, ok, err}
use cipher_x.Core.Types.{Block, Transaction, KeyImage}
use cipher_x.Core.Transaction.{key_images}
use cipher_x.Core.Chain.{Chain, ChainError, block_key_images, new}
use cipher_x.Core.Chain.Append.{
  append_block, extend, spend, apply_all, apply_transaction, apply_block,
}
use cipher_x.Core.Chain.Append.Accept.{Unspent, ValidTx, ValidBlock, append_block-cases}
use cipher_x.Crates.{Crates}

-- `k` is in the set.
abbrev Spent : HashSet KeyImage → KeyImage → Type 0
Spent s k = HashSet.contains Bytes-discrete k s ≡ true

-- The new set has at least the keys of the old one.
abbrev Grows : HashSet KeyImage → HashSet KeyImage → Type 0
Grows s t = (k : KeyImage) → Spent s k → Spent t k

insert-Grows : (k : KeyImage) (s : HashSet KeyImage) → Grows s (HashSet.insert Bytes-discrete k s).0
insert-Grows k s j h = ground (arith, HashSet.contains-insert Bytes-discrete k j s, h)

insert-Spent : (k : KeyImage) (s : HashSet KeyImage) → Spent (HashSet.insert Bytes-discrete k s).0 k
insert-Spent k s = ground (arith, HashSet.contains-insert Bytes-discrete k k s)

spend-Grows : (ks : List KeyImage) (s : HashSet KeyImage) → Grows s (spend ks s)
unfolding spend
spend-Grows [] s j h = h
spend-Grows (k ∷ ks) s j h =
    spend-Grows ks (HashSet.insert Bytes-discrete k s).0 j (insert-Grows k s j h)

spend-Spent : (ks : List KeyImage) (s : HashSet KeyImage) → All (Spent (spend ks s)) ks
unfolding spend
spend-Spent [] s = tt
spend-Spent (k ∷ ks) s =
    let s' = (HashSet.insert Bytes-discrete k s).0 in
    (spend-Grows ks s' k (insert-Spent k s), spend-Spent ks s')

-- A spent key image is none of the unspent ones.
Unspent-Absent :
    (s : HashSet KeyImage) (k : KeyImage) (ks : List KeyImage)
    → Unspent s k
    → All (Spent s) ks
    → Absent k ks
Unspent-Absent s k [] u h = tt
Unspent-Absent s k (j ∷ ks) u h =
    (λ e. absurd (grind (arith, e, u, h.0)), Unspent-Absent s k ks u h.1)

Unspent-disjoint :
    (s : HashSet KeyImage) (ks js : List KeyImage)
    → All (Unspent s) ks
    → All (Spent s) js
    → Distinct ks
    → Distinct js
    → Distinct (ks ++ js)
Unspent-disjoint s [] js u h d e = e
Unspent-disjoint s (k ∷ ks) js u h d e =
    (Absent-append k ks js d.0 (Unspent-Absent s k js u.0 h), Unspent-disjoint s ks js u.1 h d.1 e)

module _ {c : Crates} where
  -- Every key image of the transactions is spent after them.
  apply_all-Grows :
      (height : ℕ) (txs : List Transaction) (ch : Chain c)
      → Grows ch.spent_key_images (apply_all height txs ch).spent_key_images
  unfolding apply_all apply_transaction
  apply_all-Grows height [] ch k h = h
  apply_all-Grows height (tx ∷ txs) ch k h =
      apply_all-Grows height txs (apply_transaction height tx ch) k
        (spend-Grows (key_images tx) ch.spent_key_images k h)

  apply_all-Spent :
      (height : ℕ) (txs : List Transaction) (ch : Chain c)
      → All (Spent (apply_all height txs ch).spent_key_images) (flat_map key_images txs)
  unfolding apply_all apply_transaction flat_map
  apply_all-Spent height [] ch = tt
  apply_all-Spent height (tx ∷ txs) ch =
      let ch' = apply_transaction height tx ch in
      All-append _ (key_images tx) (flat_map key_images txs)
        (All-map (λ k h. apply_all-Grows height txs ch' k h) (key_images tx)
          (spend-Spent (key_images tx) ch.spent_key_images))
        (apply_all-Spent height txs ch')

  -- The key images of valid transactions are unspent.
  valid-Unspent :
      (ch : Chain c) (txs : List Transaction)
      → All (ValidTx ch) txs
      → All (Unspent ch.spent_key_images) (flat_map key_images txs)
  unfolding flat_map
  valid-Unspent ch [] v = tt
  valid-Unspent ch (tx ∷ txs) v =
      All-append _ (key_images tx) (flat_map key_images txs) v.0.0 (valid-Unspent ch txs v.1)

  -- The key images of an accepted block are put before those used so far.
  abbrev pub note :
      Block → List KeyImage → Chain c × Result ChainError (Unit {0}) → Chain c × List KeyImage
  note b used (ch, ok _) = (ch, block_key_images b ++ used)
  note b used (ch, err _) = (ch, used)

  pub note-chain :
      (b : Block) (used : List KeyImage) (p : Chain c × Result ChainError (Unit {0}))
      → (note b used p).0 ≡ p.0
  note-chain b used (ch, ok x) = refl
  note-chain b used (ch, err e) = refl

  -- The chain after a sequence of blocks, and the key images of the accepted ones, newest first.
  unfoldable pub append_blocks : List Block → Chain c × List KeyImage → Chain c × List KeyImage
  append_blocks [] st = st
  append_blocks (b ∷ bs) (ch, used) = append_blocks bs (note b used (append_block b ch))

  -- The key images used so far are distinct and marked as spent.
  abbrev Recorded : Chain c × List KeyImage → Type 0
  Recorded (ch, used) = Distinct used × All (Spent ch.spent_key_images) used

  extend-Recorded :
      (b : Block) (ch : Chain c) (used : List KeyImage)
      → ValidBlock b ch
      → Recorded (ch, used)
      → Recorded (extend b ch, block_key_images b ++ used)
  unfolding extend apply_block block_key_images
  extend-Recorded b ch used v (d, s) = (
    Unspent-disjoint ch.spent_key_images (block_key_images b) used
        (valid-Unspent ch b.transactions v.valid_txs) s v.no_repeats d,
    All-append _ (block_key_images b) used (apply_all-Spent b.header.height b.transactions ch)
        (All-map (λ k h. apply_all-Grows b.header.height b.transactions ch k h) used s),
  )

  append_block-Recorded :
      (b : Block) (ch : Chain c) (used : List KeyImage)
      → Recorded (ch, used)
      → Recorded (note b used (append_block b ch))
  append_block-Recorded b ch used h = elim (append_block-cases b ch) [
    | inl (v, r) ↦ subst (λ p. Recorded (note b used p)) (sym r) (extend-Recorded b ch used v h)
    | inr (e, _, r) ↦ subst (λ p. Recorded (note b used p)) (sym r) h
  ]

  append_blocks-Recorded :
      (bs : List Block) (st : Chain c × List KeyImage)
      → Recorded st
      → Recorded (append_blocks bs st)
  unfolding append_blocks
  append_blocks-Recorded [] st h = h
  append_blocks-Recorded (b ∷ bs) (ch, used) h =
      append_blocks-Recorded bs (note b used (append_block b ch))
        (append_block-Recorded b ch used h)

-- Whatever sequence of blocks is offered to a new chain, no key image occurs twice in the
-- transactions of the accepted blocks.
pub no_double_spend :
    (c : Crates) (now : ℕ) (bs : List Block) → Distinct (append_blocks {c = c} bs (new now, [])).1
no_double_spend c now bs = (append_blocks-Recorded {c = c} bs (new now, []) (tt, tt)).0
