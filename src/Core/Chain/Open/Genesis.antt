-- ===== src/Core/Chain/Open/Genesis.antt =====
-- Two starts of a node differ in the genesis block of `Chain::new`, whose time is that of the clock,
-- src/core/chain.rs and src/core/block.rs. What `Chain::open` takes up does not depend on it.
use cipher_x.Prelude.{
  ℕ, zero, suc, ◌≡◌, ◌⊎◌, refl, sym, ap, subst, ◌∙◌, ◌++◌, inl, inr, Option, some, List, [], ◌∷◌,
  Bytes-discrete, map, length, get_elem?, Option-cases, arith,
}
use mathlib.Core.List.{append_assoc, append-nil}
use cipher_x.Std.HashMap.{HashMap}
use cipher_x.Std.HashMap
use cipher_x.Core.Types.{Block, BlockHash, Transaction}
use cipher_x.Core.Block
use cipher_x.Core.Chain.{Chain, new, block_at, block_by_hash}
use cipher_x.Core.Chain.Append.{apply_block, apply_all, apply_transaction}
use cipher_x.Core.Chain.Open.{adopt}
use cipher_x.Core.Chain.Open.Adopt.{adopt_all}
use cipher_x.Crates.{Crates}

-- The same chain, but for its genesis block: the same balances, spent key images and supply, the same
-- blocks above height 0, and the same tip unless the genesis block is the tip.
pub record Resumed {c : Crates} (ch ch' : Chain c) : Type 0 where
  pub same_height : ch'.height ≡ ch.height
  pub same_utxo_set : ch'.utxo_set ≡ ch.utxo_set
  pub same_key_images : ch'.spent_key_images ≡ ch.spent_key_images
  pub same_exits : ch'.pending_exits ≡ ch.pending_exits
  pub same_validators : ch'.total_validators ≡ ch.total_validators
  pub same_supply : ch'.circulating_supply ≡ ch.circulating_supply
  pub same_db : ch'.db ≡ ch.db
  pub same_count : length ch'.blocks_by_height ≡ length ch.blocks_by_height
  pub same_blocks : (i : ℕ) → block_at (suc i) ch' ≡ block_at (suc i) ch
  pub same_tip : (ch'.tip_hash ≡ ch.tip_hash) ⊎ (ch.height ≡ 0)

module _ (c : Crates) where
  -- A chain with other lookups of blocks.
  abbrev relabel : HashMap BlockHash Block → List BlockHash → BlockHash → Chain c → Chain c
  relabel m l t ch = record ch { blocks_by_hash = m; blocks_by_height = l; tip_hash = t }

  apply_all-relabel :
      (h : ℕ) (txs : List Transaction) (m : HashMap BlockHash Block) (l : List BlockHash)
      (t : BlockHash) (ch : Chain c)
      → apply_all h txs (relabel m l t ch) ≡ relabel m l t (apply_all h txs ch)
  unfolding apply_all apply_transaction
  apply_all-relabel h [] m l t ch = refl
  apply_all-relabel h (tx ∷ txs) m l t ch =
      apply_all-relabel h txs m l t (apply_transaction h tx ch)

  adopt-relabel :
      (h : ℕ) (b : Block) (m : HashMap BlockHash Block) (l : List BlockHash) (t : BlockHash)
      (ch : Chain c)
      → adopt h b (relabel m l t ch)
        ≡ relabel
            (HashMap.insert Bytes-discrete (Block.hash c b) b m)
            (l ++ Block.hash c b ∷ [])
            (Block.hash c b)
            (adopt h b ch)
  unfolding adopt apply_block
  adopt-relabel h b m l t ch = rw (apply_all-relabel b.header.height b.transactions m l t ch) refl

  -- The lookups after blocks were taken up.
  filed : List Block → HashMap BlockHash Block → HashMap BlockHash Block
  filed [] m = m
  filed (b ∷ bs) m = filed bs (HashMap.insert Bytes-discrete (Block.hash c b) b m)

  last_hash : List Block → BlockHash → BlockHash
  last_hash [] t = t
  last_hash (b ∷ bs) t = last_hash bs (Block.hash c b)

  adopt_all-relabel :
      (h : ℕ) (bs : List Block) (m : HashMap BlockHash Block) (l : List BlockHash) (t : BlockHash)
      (ch : Chain c)
      → adopt_all h bs (relabel m l t ch)
        ≡ relabel (filed bs m) (l ++ map (Block.hash c) bs) (last_hash bs t) (adopt_all h bs ch)
  unfolding adopt_all filed last_hash
  adopt_all-relabel h [] m l t ch = ap (λ x. relabel m x t ch) (sym (append-nil l))
  adopt_all-relabel h (b ∷ bs) m l t ch =
      ap (adopt_all (suc h) bs) (adopt-relabel h b m l t ch)
      ∙ adopt_all-relabel (suc h) bs (HashMap.insert Bytes-discrete (Block.hash c b) b m)
          (l ++ Block.hash c b ∷ []) (Block.hash c b) (adopt h b ch)
      ∙ ap
          (λ x.
            relabel (filed bs (HashMap.insert Bytes-discrete (Block.hash c b) b m)) x
              (last_hash bs (Block.hash c b)) (adopt_all (suc h) bs (adopt h b ch)))
          (append_assoc l (Block.hash c b ∷ []) (map (Block.hash c) bs))

  -- Where two indices agree on a hash, they agree on it after more blocks.
  filed-agree :
      (bs : List Block) (x : BlockHash) (m n : HashMap BlockHash Block)
      → HashMap.get Bytes-discrete x m ≡ HashMap.get Bytes-discrete x n
      → HashMap.get Bytes-discrete x (filed bs m) ≡ HashMap.get Bytes-discrete x (filed bs n)
  unfolding filed
  filed-agree [] x m n e = e
  filed-agree (b ∷ bs) x m n e =
      let k = Block.hash c b in
      filed-agree bs x (HashMap.insert Bytes-discrete k b m) (HashMap.insert Bytes-discrete k b n) (
        rw (HashMap.get-insert Bytes-discrete k x b m, HashMap.get-insert Bytes-discrete k x b n, e)
          refl)

  -- The blocks that were taken up are found whatever the index held before.
  filed-found :
      (bs : List Block) (i : ℕ) (x : BlockHash) (m n : HashMap BlockHash Block)
      → get_elem? (map (Block.hash c) bs) i ≡ some x
      → HashMap.get Bytes-discrete x (filed bs m) ≡ HashMap.get Bytes-discrete x (filed bs n)
  unfolding filed
  filed-found [] i x m n e = absurd (ground arith)
  filed-found (b ∷ bs) zero x m n e =
      let k = Block.hash c b in
      let same : k ≡ x = cc in
      filed-agree bs x (HashMap.insert Bytes-discrete k b m) (HashMap.insert Bytes-discrete k b n) (
        rw (← same) (
          HashMap.get-insert_self Bytes-discrete k b m
          ∙ sym (HashMap.get-insert_self Bytes-discrete k b n)))
  filed-found (b ∷ bs) (suc i) x m n e = filed-found bs i x _ _ e

  genesis_only : Block → HashMap BlockHash Block
  genesis_only g = HashMap.insert Bytes-discrete (Block.hash c g) g HashMap.empty

  -- The chain of a start at `now`, seen from the chain `a` of another start.
  started : ℕ → List Block → Chain c → Chain c
  started now bs a =
      relabel (filed bs (genesis_only (Block.genesis now)))
        (Block.hash c (Block.genesis now) ∷ map (Block.hash c) bs)
        (last_hash bs (Block.hash c (Block.genesis now))) a

  adopt_all-started :
      (now later : ℕ) (bs : List Block)
      → adopt_all 1 bs (new later) ≡ started later bs (adopt_all 1 bs (new {c = c} now))
  unfolding new started genesis_only
  adopt_all-started now later bs =
      adopt_all-relabel 1 bs (genesis_only (Block.genesis later))
        (Block.hash c (Block.genesis later) ∷ []) (Block.hash c (Block.genesis later))
        (new {c = c} now)

  block_at-started :
      (now later : ℕ) (bs : List Block) (a : Chain c) (db : Option c.Db) (i : ℕ)
      → block_at (suc i) (record (started later bs a) { db = db })
        ≡ block_at (suc i) (record (started now bs a) { db = db })
  unfolding block_at block_by_hash started
  block_at-started now later bs a db i = elim (Option-cases (get_elem? (map (Block.hash c) bs) i)) [
    | inl e ↦ rw (e, block_at) refl
    | inr (x, e) ↦
        rw (e, block_at)
          (filed-found bs i x (genesis_only (Block.genesis later))
            (genesis_only (Block.genesis now)) e)
  ]

  last_hash-started :
      (bs : List Block) (t u : BlockHash) → (last_hash bs t ≡ last_hash bs u) ⊎ (bs ≡ [])
  unfolding last_hash
  last_hash-started [] t u = inr refl
  last_hash-started (b ∷ bs) t u = inl refl

  started-Resumed :
      (now later : ℕ) (bs : List Block) (a : Chain c) (db : Option c.Db)
      → (bs ≡ [] → a.height ≡ 0)
      → Resumed (record (started now bs a) { db = db }) (record (started later bs a) { db = db })
  unfolding started
  started-Resumed now later bs a db empty = record {
    same_height = refl;
    same_utxo_set = refl;
    same_key_images = refl;
    same_exits = refl;
    same_validators = refl;
    same_supply = refl;
    same_db = refl;
    same_count = refl;
    same_blocks = block_at-started now later bs a db;
    same_tip =
        elim (last_hash-started bs (Block.hash c (Block.genesis later))
          (Block.hash c (Block.genesis now))) [ inl e ↦ inl e | inr e ↦ inr (empty e) ];
  }

  -- The same blocks taken up after two starts.
  pub adopt_all-Resumed :
      (now later : ℕ) (bs : List Block) (db : Option c.Db)
      → (bs ≡ [] → (adopt_all 1 bs (new {c = c} now)).height ≡ 0)
      → Resumed
          (record (adopt_all 1 bs (new {c = c} now)) { db = db })
          (record (adopt_all 1 bs (new {c = c} later)) { db = db })
  adopt_all-Resumed now later bs db empty =
      let a = adopt_all 1 bs (new {c = c} now) in
      subst
        (λ x.
          Resumed (record x { db = db }) (record (adopt_all 1 bs (new {c = c} later)) { db = db }))
        (sym (adopt_all-started now now bs))
        (subst (λ x. Resumed (record (started now bs a) { db = db }) (record x { db = db }))
          (sym (adopt_all-started now later bs)) (started-Resumed now later bs a db empty))
