-- ===== src/Core/Chain/Open/Restore.antt =====
-- What src/core/chain.rs `Chain::open` makes of the database that `append_block` has written.
use cipher_x.Prelude.{
  ℕ, suc, ◌+◌, ◌<◌, ◌≡◌, ◌⊎◌, refl, sym, ap, subst, ◌∙◌, ◌++◌, inl, inr, none, some, List, [], ◌∷◌,
  Bytes, true, All, length, length-append, get_elem?, get_elem?-lt, get_elem?-append, ltb, arith,
  add64, u64_mod,
}
use cipher_x.Std.Result.{ok}
use cipher_x.Core.Types.{Block, KeyImage}
use cipher_x.Core.Block
use cipher_x.Core.Chain.{Chain, new}
use cipher_x.Core.Chain.Append.{extend, persist}
use cipher_x.Core.Chain.Append.Accept.{append_block-cases}
use cipher_x.Core.Chain.Append.History.{append_blocks}
use cipher_x.Core.Chain.Open.{adopt, replay, open_chain}
use cipher_x.Storage.Db.{load_chain_state, put_block, save_chain_state}
use cipher_x.Storage.Laws.{
  DbLaws, Encodes, Stored, get_block_by_height-Stored, put_block-Stored,
  save_chain_state-load_chain_state,
}
use cipher_x.Crates.{Crates}
use cipher_x.Core.Chain.Open.Genesis.{Resumed, adopt_all-Resumed}
use cipher_x.Core.Chain.Open.Adopt.{
  le_bytes-ne, empty_list, adopt_all, adopt_all-append, adopt-db, extend-adopt, persist-ok, on_db,
}

module _ {c : Crates} (laws : DbLaws c) where
  replay-Stored :
      (bs : List Block) (h : ℕ) (db : c.Db) (ch : Chain c)
      → ((i : ℕ) (b : Block) → get_elem? bs i ≡ some b → Stored laws db (h + i) b)
      → replay (length bs) h db ch ≡ adopt_all h bs ch
  unfolding replay adopt_all
  replay-Stored [] h db ch s = refl
  replay-Stored (b ∷ bs) h db ch s =
      let first : Stored laws db h b = subst (λ n. Stored laws db n b) (omega arith) (s 0 b refl) in
      rw (replay, get_block_by_height-Stored laws db h b first)
        (replay-Stored bs (suc h) db (adopt h b ch)
          (λ i x e. subst (λ n. Stored laws db n x) (omega arith) (s (suc i) x e)))

  -- The chain is what its database restores: the accepted blocks, in order, are stored at their
  -- heights, and the saved state is the chain's, unless no block was accepted yet.
  record Restorable (now : ℕ) (ch : Chain c) : Type 0 where
    accepted : List Block
    stored_in : c.Db
    same : ch ≡ record (adopt_all 1 accepted (new {c = c} now)) { db = some stored_in }
    count : ch.height ≡ length accepted
    blocks :
        (i : ℕ) (b : Block)
        → get_elem? accepted i ≡ some b
        → Stored laws stored_in (suc i) b × (b.header.height ≡ suc i)
    saved :
        ((ch.height ≡ 0) × (load_chain_state c stored_in ≡ ok none))
        ⊎ ((0 < ch.height) × (load_chain_state c stored_in ≡ ok (some (ch.height, ch.tip_hash))))

  new-Restorable :
      (now : ℕ) (db : c.Db)
      → load_chain_state c db ≡ ok none
      → Restorable now (open_chain {c = c} now (some db))
  unfolding open_chain new adopt_all
  new-Restorable now db e =
      rw (open_chain, e)
        (record {
          accepted = [];
          stored_in = db;
          same = refl;
          count = refl;
          blocks = λ i b h. absurd (ground arith);
          saved = inl (refl, e);
        })

  open_chain-empty :
      (now : ℕ) (db : c.Db)
      → load_chain_state c db ≡ ok none
      → open_chain {c = c} now (some db) ≡ record (new {c = c} now) { db = some db }
  unfolding open_chain
  open_chain-empty now db e = rw (open_chain, e) refl

  open_chain-saved :
      (now n : ℕ) (tip : Bytes) (db : c.Db)
      → load_chain_state c db ≡ ok (some (n, tip))
      → 0 < n
      → open_chain {c = c} now (some db) ≡ record (replay n 1 db (new {c = c} now)) { db = some db }
  unfolding open_chain
  open_chain-saved now n tip db e h =
      let test : ltb 0 n ≡ true = ground arith in rw (open_chain, e, test) refl

  -- What a start at `later` makes of the database.
  reopened :
      (now later : ℕ) (ch : Chain c) (r : Restorable now ch)
      → open_chain {c = c} later (some r.stored_in)
        ≡ record (adopt_all 1 r.accepted (new {c = c} later)) { db = some r.stored_in }
  unfolding adopt_all
  reopened now later ch r = elim r.saved [
    | inl (none_yet, e) ↦
        open_chain-empty later r.stored_in e
        ∙ ap (λ l. record (adopt_all 1 l (new {c = c} later)) { db = some r.stored_in })
            (sym (empty_list r.accepted (sym r.count ∙ none_yet)))
    | inr (some_yet, e) ↦
        open_chain-saved later ch.height ch.tip_hash r.stored_in e some_yet
        ∙ ap (on_db r.stored_in) (
            ap (λ n. replay n 1 r.stored_in (new {c = c} later)) r.count
            ∙ replay-Stored r.accepted 1 r.stored_in (new {c = c} later) (λ i b h.
              subst (λ n. Stored laws r.stored_in n b) (omega arith) (r.blocks i b h).0))
  ]

  open_chain-Restorable :
      (now later : ℕ) (ch : Chain c) (r : Restorable now ch)
      → Resumed ch (open_chain {c = c} later (some r.stored_in))
  unfolding adopt_all new
  open_chain-Restorable now later ch r = subst (Resumed ch) (sym (reopened now later ch r)) (
      subst
        (λ x.
          Resumed x (record (adopt_all 1 r.accepted (new {c = c} later)) { db = some r.stored_in }))
        (sym r.same)
        (adopt_all-Resumed c now later r.accepted (some r.stored_in)
          (λ e. ap (λ l. (adopt_all 1 l (new {c = c} now)).height) e)))

  -- What persisting the next block gives.
  persisted :
      (b : Block) (a : Chain c) (n : ℕ) (db db1 db2 : c.Db)
      → put_block c b db ≡ ok db1
      → save_chain_state c n (Block.hash c b) db1 ≡ ok db2
      → persist b (adopt n b (record a { db = some db })) ≡ record (adopt n b a) { db = some db2 }
  unfolding adopt
  persisted b a n db db1 db2 e f =
      ap (persist b) (adopt-db n b a (some db)) ∙ persist-ok b (adopt n b a) db db1 db2 e f

  extend-Restorable :
      ((b b' : Block) → Block.hash c b ≡ Block.hash c b' → b.header.height ≡ b'.header.height)
      → (now : ℕ) (b : Block) (ch : Chain c) → Restorable now ch
      → Encodes c b
      → ch.height + 1 < u64_mod
      → b.header.height ≡ add64 ch.height 1
      → Restorable now (extend b ch)
  unfolding extend persist
  extend-Restorable distinct now b ch r encodes bound next =
      let n = add64 ch.height 1 in
      let a = adopt_all 1 r.accepted (new {c = c} now) in
      let (db1, put, here, keep, _) = put_block-Stored laws b r.stored_in encodes in
      let (db2, saved, loaded, keep') =
        save_chain_state-load_chain_state laws n (Block.hash c b) db1 (omega arith)
          (laws.length-hash b) in
      let counted = r.count in
      let height_of : n ≡ 1 + length r.accepted = omega arith in
      record {
        accepted = r.accepted ++ b ∷ [];
        stored_in = db2;
        same =
            extend-adopt b ch
            ∙ ap (λ x. persist b (adopt n b x)) r.same
            ∙ persisted b a n r.stored_in db1 db2 put saved
            ∙ ap (on_db db2) (
                ap (λ m. adopt m b a) height_of
                ∙ sym (adopt_all-append 1 r.accepted b (new {c = c} now)));
        count = omega (arith, length-append r.accepted (b ∷ []));
        blocks = λ i x h. elim (get_elem?-append r.accepted b x i h) [
          | inl e ↦
              let (s, at) = r.blocks i x e in
              let earlier = get_elem?-lt r.accepted i x e in
              (
                keep' (suc i) x (
                    keep (suc i) x s
                      (le_bytes-ne b.header.height (suc i) (omega arith) (omega arith)
                        (λ q. omega arith))
                      (λ q. let q' = distinct b x q in omega arith)),
                at,
              )
          | inr (e, f) ↦
              let at : b.header.height ≡ suc i = omega arith in
              subst (λ y. Stored laws db2 (suc i) y × (y.header.height ≡ suc i)) f
                (subst (λ m. Stored laws db2 m b) at (keep' b.header.height b here), at)
        ];
        saved = inr (omega arith, loaded);
      }

  append_blocks-Restorable :
      ((b b' : Block) → Block.hash c b ≡ Block.hash c b' → b.header.height ≡ b'.header.height)
      → (now : ℕ) (bs : List Block) (ch : Chain c) (used : List KeyImage) → Restorable now ch
      → All (Encodes c) bs
      → ch.height + length bs < u64_mod
      → Restorable now (append_blocks bs (ch, used)).0
  unfolding append_blocks extend persist
  append_blocks-Restorable distinct now [] ch used r encodes bound = r
  append_blocks-Restorable distinct now (b ∷ bs) ch used r encodes bound =
      elim (append_block-cases b ch) [
        | inl (v, e) ↦
            let raised : (extend b ch).height + length bs < u64_mod = omega arith in
            rw (append_blocks, e)
              (append_blocks-Restorable distinct now bs (extend b ch) _
                (extend-Restorable distinct now b ch r encodes.0 (omega arith) v.next_height)
                encodes.1 raised)
        | inr (_, _, e) ↦
            rw (append_blocks, e)
              (append_blocks-Restorable distinct now bs ch used r encodes.1 (omega arith))
      ]

  -- A database without a saved state, which reads and writes without failures, where blocks of
  -- different heights have different hashes: after any blocks, fewer than 2^64 and each read back
  -- from its encoding, offered to the chain that was opened on it at `now`, opening the database
  -- again, whatever the clock then reads, gives that chain but for its genesis block: the same
  -- height, balances, spent key images, supply and database, the same blocks above height 0, and the
  -- same tip, unless no block was accepted.
  pub open_chain-append_blocks :
      ((b b' : Block) → Block.hash c b ≡ Block.hash c b' → b.header.height ≡ b'.header.height)
      → (now later : ℕ) (db : c.Db) (bs : List Block) → load_chain_state c db ≡ ok none
      → All (Encodes c) bs
      → length bs < u64_mod
      → let ch = (append_blocks bs (open_chain {c = c} now (some db), [])).0 in
        (db' : c.Db) × (ch.db ≡ some db') × Resumed ch (open_chain later (some db'))
  unfolding new
  open_chain-append_blocks distinct now later db bs fresh encodes bound =
      let start = ap (λ ch. ch.height) (open_chain-empty now db fresh) in
      let r =
        append_blocks-Restorable distinct now bs (open_chain {c = c} now (some db)) []
          (new-Restorable now db fresh) encodes (omega (arith, start)) in
      (r.stored_in, ap (λ ch. ch.db) r.same, open_chain-Restorable now later _ r)
