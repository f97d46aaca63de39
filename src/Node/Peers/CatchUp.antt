-- ===== src/Node/Peers/CatchUp.antt =====
-- A node that catches up with another one, src/main.rs.

use cipher_x.Prelude.{
  ℕ, ◌+◌, ◌<◌, ◌≤◌, ◌≡◌, refl, ap, subst, ◌∙◌, inl, inr, some, List, [], ◌∷◌, ◌++◌, Bytes-discrete,
  length, get_elem?, get_elem?-lt, get_elem?-append_end, get_elem?-append, get_elem?-append_front,
  length-append, ◌≢◌, arith, add64, u64_mod,
}
use cipher_x.Std.HashMap
use cipher_x.Core.Types.{Block, BlockHash, Transaction}
use cipher_x.Core.Block
use cipher_x.Core.Chain.{Chain, block_at, block_by_hash}
use cipher_x.Core.Chain.Append.{
  append_block, extend, apply_block, apply_all, apply_transaction, persist,
}
use cipher_x.Core.Chain.Append.Accept.{append_block-cases}
use cipher_x.Core.Chain.Append.Links.{extend-heights, extend-by_hash, extend_height, block_at-some}
use cipher_x.Crates.{Crates}
use cipher_x.Node.Peers.{blocks_per_batch, apply_received, run_sync_client}
use cipher_x.Node.Peers.Requests.{asked, Blocks, run_sync_client-Blocks}

module _ {c : Crates} where
  apply_received-append :
      (bs : List Block) (b : Block) (ch : Chain c)
      → apply_received (bs ++ b ∷ []) ch ≡ (append_block b (apply_received bs ch)).0
  unfolding apply_received
  apply_received-append [] b ch = refl
  apply_received-append (x ∷ bs) b ch = apply_received-append bs b (append_block x ch).0

  apply_all_hashes :
      (height : ℕ) (txs : List Transaction) (ch : Chain c)
      → (apply_all height txs ch).blocks_by_hash ≡ ch.blocks_by_hash
  unfolding apply_all apply_transaction
  apply_all_hashes height [] ch = refl
  apply_all_hashes height (tx ∷ txs) ch =
      apply_all_hashes height txs (apply_transaction height tx ch)

  extend-other :
      (b : Block) (h : BlockHash) (ch : Chain c)
      → Block.hash c b ≢ h
      → block_by_hash h (extend b ch) ≡ block_by_hash h ch
  unfolding extend persist apply_block block_by_hash
  extend-other b h ch ne =
      HashMap.get-insert_other Bytes-discrete (Block.hash c b) h b _ ne
      ∙ ap (HashMap.get Bytes-discrete h) (apply_all_hashes b.header.height b.transactions ch)

  -- What was accepted on the way from one chain to another is found at its heights.
  record Extended (ch0 ch : Chain c) : Type 0 where
    accepted : List Block
    grown : apply_received accepted ch0 ≡ ch
    count : ch.height ≡ ch0.height + length accepted
    index : length ch.blocks_by_height ≡ ch.height + 1
    found :
        (i : ℕ) (b : Block)
        → get_elem? accepted i ≡ some b
        → (get_elem? ch.blocks_by_height (ch0.height + 1 + i) ≡ some (Block.hash c b))
          × (block_by_hash (Block.hash c b) ch ≡ some b)
          × (b.header.height ≡ ch0.height + 1 + i)

  extend-Extended :
      ((b b' : Block) → Block.hash c b ≡ Block.hash c b' → b.header.height ≡ b'.header.height)
      → (ch0 : Chain c) (b : Block) (ch : Chain c) → Extended ch0 ch
      → b.header.height ≡ add64 ch.height 1
      → (append_block b ch).0 ≡ extend b ch
      → ch.height + 1 < u64_mod
      → Extended ch0 (extend b ch)
  extend-Extended distinct ch0 b ch x next taken bound =
      let tall : (extend b ch).height ≡ ch.height + 1 = omega (arith, extend_height b ch) in
      let at_end : b.header.height ≡ ch.height + 1 = omega (arith, next) in
      record {
        accepted = x.accepted ++ b ∷ [];
        grown =
            apply_received-append x.accepted b ch0 ∙ ap (λ y. (append_block b y).0) x.grown ∙ taken;
        count = omega (arith, tall, x.count, length-append x.accepted (b ∷ []));
        index =
            ap length (extend-heights b ch)
            ∙ length-append ch.blocks_by_height (Block.hash c b ∷ [])
            ∙ omega (arith, x.index, tall);
        found = λ i y e. elim (get_elem?-append x.accepted b y i e) [
          | inl old ↦
              let (listed, known, level) = x.found i y old in
              let before = get_elem?-lt x.accepted i y old in
              (
                ap (λ l. get_elem? l (ch0.height + 1 + i)) (extend-heights b ch)
                    ∙ get_elem?-append_front ch.blocks_by_height (Block.hash c b ∷ [])
                        (ch0.height + 1 + i) (Block.hash c y) listed,
                extend-other b (Block.hash c y) ch
                      (λ q. omega (arith, distinct b y q, at_end, level, before, x.count))
                    ∙ known,
                level,
              )
          | inr (last, same) ↦
              subst
                (λ z.
                  (get_elem? (extend b ch).blocks_by_height (ch0.height + 1 + i)
                    ≡ some (Block.hash c z))
                  × (block_by_hash (Block.hash c z) (extend b ch) ≡ some z)
                  × (z.header.height ≡ ch0.height + 1 + i))
                same
                (
                  ap (λ l. get_elem? l (ch0.height + 1 + i)) (extend-heights b ch)
                      ∙ ap (get_elem? (ch.blocks_by_height ++ Block.hash c b ∷ []))
                          {x = ch0.height + 1 + i} {y = length ch.blocks_by_height}
                          (omega (arith, last, x.index, x.count))
                      ∙ get_elem?-append_end ch.blocks_by_height (Block.hash c b),
                  extend-by_hash b ch,
                  omega (arith, at_end, last, x.count),
                )
        ];
      }

  apply_received-Extended :
      ((b b' : Block) → Block.hash c b ≡ Block.hash c b' → b.header.height ≡ b'.header.height)
      → (ch0 : Chain c) (bs : List Block) (ch : Chain c) → Extended ch0 ch
      → ch.height + length bs < u64_mod
      → Extended ch0 (apply_received bs ch)
        × ((apply_received bs ch).height ≤ ch.height + length bs)
  unfolding apply_received
  apply_received-Extended distinct ch0 [] ch x bound = (x, omega arith)
  apply_received-Extended distinct ch0 (b ∷ bs) ch x bound = elim (append_block-cases b ch) [
    | inl (v, e) ↦
        let tall : (extend b ch).height ≡ ch.height + 1 = omega (arith, extend_height b ch) in
        let (y, l) =
          apply_received-Extended distinct ch0 bs (extend b ch)
            (extend-Extended distinct ch0 b ch x v.next_height (ap (λ p. p.0) e) (omega arith))
            (omega (arith, tall)) in
        rw (apply_received, e) (y, omega (arith, l, tall))
    | inr (_, _, e) ↦
        let (y, l) = apply_received-Extended distinct ch0 bs ch x (omega arith) in
        rw (apply_received, e) (y, omega (arith, l))
  ]

  -- Where blocks of different heights have different hashes: a node that is in the state of a chain
  -- with one hash per height, and catches up with a node whose chain went on from that state by any
  -- blocks offered to it, receives what that node has accepted, and applying it gives the other
  -- node's chain, while heights stay a batch below 2^64.
  pub apply_received-run_sync_client :
      ((b b' : Block) → Block.hash c b ≡ Block.hash c b' → b.header.height ≡ b'.header.height)
      → (ch0 : Chain c) (bs : List Block) → length ch0.blocks_by_height ≡ ch0.height + 1
      → ch0.height + length bs + blocks_per_batch < u64_mod
      → let ch = apply_received bs ch0 in
        apply_received (run_sync_client ch.height (asked ch) (add64 ch0.height 1) ch.height 0) ch0
        ≡ ch
  unfolding Blocks apply_received
  apply_received-run_sync_client distinct ch0 bs index bound =
      let start : Extended ch0 ch0 = record {
        accepted = [];
        grown = refl;
        count = omega arith;
        index = index;
        found = λ i b e. absurd (ground arith);
      } in
      let (x, l) = apply_received-Extended distinct ch0 bs ch0 start (omega arith) in
      let ch = apply_received bs ch0 in
      let next : add64 ch0.height 1 ≡ ch0.height + 1 = omega arith in
      let got =
        run_sync_client-Blocks ch.height (add64 ch0.height 1) 0 ch x.accepted
          (λ i b e.
            let (listed, known, _) = x.found i b e in
            subst (λ m. block_at m ch ≡ some b) (omega (arith, next))
              (block_at-some ch (ch0.height + 1 + i) (Block.hash c b) listed ∙ known))
          (omega (arith, next, x.count)) (omega (arith, l)) (omega (arith, x.count)) in
      ap (λ r. apply_received r ch0) got ∙ x.grown
