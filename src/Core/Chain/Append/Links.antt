-- ===== src/Core/Chain/Append/Links.antt =====
-- The tip and the height index of src/core/chain.rs under `append_block`.
use cipher_x.Prelude.{
  ℕ, ◌+◌, ◌<◌, ◌≤◌, ◌≡◌, refl, ap, subst, sym, ◌∙◌, some, List, [], ◌∷◌, ◌++◌, Bytes-discrete, inl,
  inr, arith, length, length-append, get_elem?, get_elem?-append_end, add64, u64_mod,
}
use cipher_x.Std.HashMap
use cipher_x.Core.Types.{Block, KeyImage, BlockHash}
use cipher_x.Core.Block
use cipher_x.Core.Chain.{Chain, new, tip, block_at, block_by_hash}
use cipher_x.Core.Chain.Append.{
  append_block, extend, apply_block, apply_all, apply_transaction, persist,
}
use cipher_x.Core.Chain.Append.Accept.{ValidBlock, append_block-cases}
use cipher_x.Core.Chain.Append.History.{note, note-chain, append_blocks}
use cipher_x.Crates.{Crates}

module _ {c : Crates} where
  -- One block per height, and the tip is the block at the chain's height.
  pub record Linked (ch : Chain c) : Type 0 where
    pub count : length ch.blocks_by_height ≡ ch.height + 1
    pub top : Block
    pub top_tip : tip ch ≡ some top
    pub top_at : block_at ch.height ch ≡ some top
    pub top_height : top.header.height ≡ ch.height
    pub top_hash : Block.hash c top ≡ ch.tip_hash

  pub new-Linked : (now : ℕ) → Linked (new now)
  unfolding new tip block_at block_by_hash Block.genesis
  new-Linked now = record {
    count = refl;
    top = Block.genesis now;
    top_tip = HashMap.get-insert_self Bytes-discrete _ _ _;
    top_at = HashMap.get-insert_self Bytes-discrete _ _ _;
    top_height = refl;
    top_hash = refl;
  }

  -- `apply_block` leaves the index alone.
  apply_all_index :
      (height : ℕ) (txs : List _) (ch : Chain c)
      → (apply_all height txs ch).blocks_by_height ≡ ch.blocks_by_height
  unfolding apply_all apply_transaction
  apply_all_index height [] ch = refl
  apply_all_index height (tx ∷ txs) ch = apply_all_index height txs (apply_transaction height tx ch)

  pub extend-heights :
      (b : Block) (ch : Chain c)
      → (extend b ch).blocks_by_height ≡ ch.blocks_by_height ++ Block.hash c b ∷ []
  unfolding extend apply_block persist
  extend-heights b ch =
      ap (λ l. l ++ Block.hash c b ∷ []) (apply_all_index b.header.height b.transactions ch)

  extend-tip : (b : Block) (ch : Chain c) → tip (extend b ch) ≡ some b
  unfolding extend persist tip
  extend-tip b ch = HashMap.get-insert_self Bytes-discrete _ _ _

  pub extend_height : (b : Block) (ch : Chain c) → (extend b ch).height ≡ add64 ch.height 1
  unfolding extend persist
  extend_height b ch = refl

  extend-tip_hash : (b : Block) (ch : Chain c) → (extend b ch).tip_hash ≡ Block.hash c b
  unfolding extend persist
  extend-tip_hash b ch = refl

  pub block_at-some :
      (ch : Chain c) (i : ℕ) (h : BlockHash)
      → get_elem? ch.blocks_by_height i ≡ some h
      → block_at i ch ≡ block_by_hash h ch
  unfolding block_at
  block_at-some ch i h e = rw (e, block_at)

  pub extend-by_hash :
      (b : Block) (ch : Chain c) → block_by_hash (Block.hash c b) (extend b ch) ≡ some b
  unfolding extend persist block_by_hash
  extend-by_hash b ch = HashMap.get-insert_self Bytes-discrete _ _ _

  -- The block at a height whose hash is that of the new block.
  extend-at :
      (b : Block) (ch : Chain c) (i : ℕ)
      → get_elem? (extend b ch).blocks_by_height i ≡ some (Block.hash c b)
      → block_at i (extend b ch) ≡ some b
  extend-at b ch i h = block_at-some (extend b ch) i (Block.hash c b) h ∙ extend-by_hash b ch

  height_index :
      (b : Block) (ch : Chain c)
      → Linked ch
      → ch.height + 1 < u64_mod
      → length ch.blocks_by_height ≡ (extend b ch).height
  height_index b ch l h = omega (arith, l.count, extend_height b ch, h)

  extend-Linked :
      (b : Block) (ch : Chain c)
      → ValidBlock b ch
      → Linked ch
      → ch.height + 1 < u64_mod
      → Linked (extend b ch)
  extend-Linked b ch v l h = record {
    count =
        ap length (extend-heights b ch)
        ∙ length-append ch.blocks_by_height (Block.hash c b ∷ [])
        ∙ omega (arith, l.count, extend_height b ch, h);
    top = b;
    top_tip = extend-tip b ch;
    top_at = extend-at b ch (extend b ch).height (
        subst (λ i. get_elem? (extend b ch).blocks_by_height i ≡ some (Block.hash c b))
          (height_index b ch l h)
          (ap (λ xs. get_elem? xs (length ch.blocks_by_height)) (extend-heights b ch)
            ∙ get_elem?-append_end ch.blocks_by_height (Block.hash c b)));
    top_height = v.next_height ∙ sym (extend_height b ch);
    top_hash = sym (extend-tip_hash b ch);
  }

  append_block-Linked :
      (b : Block) (ch : Chain c)
      → Linked ch
      → ch.height + 1 < u64_mod
      → Linked (append_block b ch).0 × ((append_block b ch).0.height ≤ ch.height + 1)
  append_block-Linked b ch l h = elim (append_block-cases b ch) [
    | inl (v, r) ↦ (
      subst (λ p. Linked p.0) (sym r) (extend-Linked b ch v l h),
      omega (arith, ap (λ p. p.0.height) r, extend_height b ch, h),
    )
    | inr (e, _, r) ↦ (subst (λ p. Linked p.0) (sym r) l, omega (arith, ap (λ p. p.0.height) r))
  ]

  append_blocks-Linked :
      (bs : List Block) (st : Chain c × List KeyImage)
      → Linked st.0
      → st.0.height + length bs < u64_mod
      → Linked (append_blocks bs st).0
  unfolding append_blocks
  append_blocks-Linked [] st l h = l
  append_blocks-Linked (b ∷ bs) (ch, used) l h =
      let (one, le) = append_block-Linked b ch l (omega (arith, h)) in
      let e = note-chain b used (append_block b ch) in
      append_blocks-Linked bs (note b used (append_block b ch)) (subst Linked (sym e) one)
        (omega (arith, ap (λ x. x.height) e, le, h))

-- After any blocks, fewer than 2^64, offered to a new chain there is one hash per height; the tip
-- is found and is the block at the chain's height, its header has that height, and its hash is the
-- tip hash.
pub history-Linked :
    (c : Crates) (now : ℕ) (bs : List Block)
    → length bs < u64_mod
    → Linked (append_blocks {c = c} bs (new now, [])).0
unfolding new
history-Linked c now bs h =
    append_blocks-Linked {c = c} bs (new now, []) (new-Linked now) (omega (arith, h))
