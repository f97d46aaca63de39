-- ===== src/Core/Chain/Append/Supply.antt =====
-- The circulating supply under `append_block` of src/core/chain.rs.
use cipher_x.Prelude.{
  ℕ, suc, ◌+◌, ◌*◌, ◌≤◌, ◌≡◌, Bool, true, false, List, [], ◌∷◌, inl, inr, arith, ap, subst,
  if◌then◌else◌,
}
use cipher_x.Core.Types.{Block, KeyImage, Transaction}
use cipher_x.Core.Transaction.{is_coinbase}
use cipher_x.Core.Params.{max_supply, premine, ncip, block_reward}
use cipher_x.Core.Chain.{Chain, coinbase_count, new}
use cipher_x.Core.Chain.Append.{
  append_block, extend, apply_all, apply_transaction, reward_supply, apply_block,
}
use cipher_x.Core.Chain.Append.Accept.{ValidBlock, append_block-cases}
use cipher_x.Core.Chain.Append.History.{note, note-chain, append_blocks}
use cipher_x.Crates.{Crates}

abbrev cap : ℕ
cap = max_supply * ncip

reward_supply_lem :
    (height supply : ℕ)
    → supply ≤ cap
    → (supply ≤ reward_supply height supply)
      × (reward_supply height supply ≤ cap)
      × (reward_supply height supply ≤ supply + block_reward height)
unfolding reward_supply
reward_supply_lem height supply h = omega arith

-- From `old` to `next` with at most `n` rewards of `r`, within the cap.
abbrev Minted : ℕ → ℕ → ℕ → ℕ → Type 0
Minted old r n next = (old ≤ next) × (next ≤ cap) × (next ≤ old + n * r)

Minted-trans : (r a b d m n : ℕ) → Minted a r m b → Minted b r n d → Minted a r (m + n) d
Minted-trans r a b d m n h k = grind (arith, h, k)

module _ {c : Crates} where
  apply_transaction-Minted :
      (height : ℕ) (tx : Transaction) (ch : Chain c)
      → ch.circulating_supply ≤ cap
      → Minted ch.circulating_supply
          (block_reward height)
          (if is_coinbase tx then 1 else 0)
          (apply_transaction height tx ch).circulating_supply
  unfolding apply_transaction
  apply_transaction-Minted height tx ch h =
      grind (arith, reward_supply_lem height ch.circulating_supply h)

  apply_all-Minted :
      (height : ℕ) (txs : List Transaction) (ch : Chain c)
      → ch.circulating_supply ≤ cap
      → Minted ch.circulating_supply
          (block_reward height)
          (coinbase_count txs)
          (apply_all height txs ch).circulating_supply
  unfolding apply_all coinbase_count
  apply_all-Minted height [] ch h = (omega arith, h, omega arith)
  apply_all-Minted height (tx ∷ txs) ch h =
      let one = apply_transaction-Minted height tx ch h in
      let rest = apply_all-Minted height txs (apply_transaction height tx ch) one.1 in
      subst
        (λ n.
          Minted ch.circulating_supply (block_reward height) n
            (apply_all height txs (apply_transaction height tx ch)).circulating_supply)
        (count (is_coinbase tx))
        (Minted-trans (block_reward height) _ _ _ (if is_coinbase tx then 1 else 0)
          (coinbase_count txs) one rest)
    where
      count :
          (b : Bool)
          → (if b then 1 else 0) + coinbase_count txs
            ≡ (if b then suc (coinbase_count txs) else coinbase_count txs)
      count true = omega arith
      count false = omega arith

  -- A valid block mints at most one reward.
  extend-Minted :
      (b : Block) (ch : Chain c)
      → ValidBlock b ch
      → ch.circulating_supply ≤ cap
      → Minted ch.circulating_supply
          (block_reward b.header.height)
          1
          (extend b ch).circulating_supply
  unfolding extend apply_block
  extend-Minted b ch v h =
      grind (arith, apply_all-Minted b.header.height b.transactions ch h, v.one_coinbase)

  -- One block offered to a chain whose supply is within the cap adds the reward of its height to
  -- the supply at most, never lowers the supply, and leaves it within the cap.
  pub append_block-supply :
      (b : Block) (ch : Chain c)
      → ch.circulating_supply ≤ max_supply * ncip
      → (ch.circulating_supply ≤ (append_block b ch).0.circulating_supply)
        × ((append_block b ch).0.circulating_supply ≤ max_supply * ncip)
        × ((append_block b ch).0.circulating_supply
            ≤ ch.circulating_supply + block_reward b.header.height)
  append_block-supply b ch h = elim (append_block-cases b ch) [
    | inl (v, r) ↦
        let m = extend-Minted b ch v h in
        let e = ap (λ p. p.0.circulating_supply) r in omega (arith, m, e)
    | inr (e, _, r) ↦ let e = ap (λ p. p.0.circulating_supply) r in omega (arith, h, e)
  ]

  append_blocks-supply :
      (bs : List Block) (st : Chain c × List KeyImage)
      → st.0.circulating_supply ≤ cap
      → (st.0.circulating_supply ≤ (append_blocks bs st).0.circulating_supply)
        × ((append_blocks bs st).0.circulating_supply ≤ cap)
  unfolding append_blocks
  append_blocks-supply [] st h = (omega arith, h)
  append_blocks-supply (b ∷ bs) (ch, used) h =
      let one = append_block-supply b ch h in
      let e = ap (λ x. x.circulating_supply) (note-chain b used (append_block b ch)) in
      let rest =
        append_blocks-supply bs (note b used (append_block b ch)) (omega (arith, e, one)) in
      omega (arith, e, one, rest)

-- Whatever blocks are offered to a new chain, the circulating supply stays between the premine and
-- the maximal supply.
pub supply_in_bounds :
    (c : Crates) (now : ℕ) (bs : List Block)
    → (premine * ncip ≤ (append_blocks {c = c} bs (new now, [])).0.circulating_supply)
      × ((append_blocks {c = c} bs (new now, [])).0.circulating_supply ≤ max_supply * ncip)
unfolding new
supply_in_bounds c now bs = append_blocks-supply {c = c} bs (new now, []) (omega arith)
