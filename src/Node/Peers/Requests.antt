-- ===== src/Node/Peers/Requests.antt =====
-- Requests for blocks and their answers, src/main.rs.
use mathlib.Core.List.{filter_map}
use cipher_x.Prelude.{
  ℕ, zero, suc, ◌+◌, ◌-◌, ◌<◌, ◌≤◌, ◌≡◌, refl, sym, ap, subst, ◌∙◌, true, false, Option, none, some,
  List, [], ◌∷◌, ◌++◌, length, take, drop, leb, min, get_elem?, get_elem?-drop, take-drop,
  length-drop, arith, add64, u64_mod,
}
use cipher_x.Core.Types.{Block}
use cipher_x.Core.Chain.{Chain, block_at}
use cipher_x.Crates.{Crates}
use cipher_x.Network.P2p.{BlockRequest}
use cipher_x.Network.Frames.{NetworkMessage}
use cipher_x.Node.Peers.{
  blocks_per_batch, heights, Served, responds, blocks_for, serve, run_sync_client,
}

take-heights : (n m h : ℕ) → take n (heights h m) ≡ heights h (min n m)
unfolding heights
take-heights zero m h = ap (heights h) {x = 0} {y = min 0 m} (omega arith)
take-heights (suc n) zero h = ap (heights h) {x = 0} {y = min (suc n) 0} (omega arith)
take-heights (suc n) (suc m) h =
    ap (◌∷◌ h) (take-heights n m (suc h))
    ∙ ap (heights h) {x = suc (min n m)} {y = min (suc n) (suc m)} (omega arith)

-- How the other node answers.
abbrev pub reply_of : Served → Option NetworkMessage
reply_of (responds m) = some m
reply_of _ = none

module _ {c : Crates} where
  abbrev pub asked : Chain c → NetworkMessage → Option NetworkMessage
  asked ch m = reply_of (serve m ch)

  -- The blocks of the chain from the height `h`.
  unfoldable pub Blocks : Chain c → ℕ → List Block → Type 0
  Blocks ch h bs = (i : ℕ) (b : Block) → get_elem? bs i ≡ some b → block_at (h + i) ch ≡ some b

  filter_map-heights :
      (ch : Chain c) (n h : ℕ) (bs : List Block)
      → Blocks ch h bs
      → n ≤ length bs
      → filter_map (λ x. block_at x ch) (heights h n) ≡ take n bs
  unfolding heights filter_map Blocks
  filter_map-heights ch zero h bs at l = refl
  filter_map-heights ch (suc n) h [] at l = absurd (omega arith)
  filter_map-heights ch (suc n) h (b ∷ bs) at l =
      let first : block_at h ch ≡ some b =
        subst (λ m. block_at m ch ≡ some b) (omega arith) (at 0 b refl) in
      rw first (
        ap (◌∷◌ b) (
          filter_map-heights ch n (suc h) bs
            (λ i x e. subst (λ m. block_at m ch ≡ some x) (omega arith) (at (suc i) x e))
            (omega arith)))

  blocks_for-Blocks :
      (req : BlockRequest) (ch : Chain c) (bs : List Block)
      → Blocks ch req.from_height bs
      → req.from_height + length bs ≡ ch.height + 1
      → req.to_height + 1 ≡ req.from_height + min blocks_per_batch (length bs)
      → blocks_for req ch ≡ take (min blocks_per_batch (length bs)) bs
  unfolding blocks_for
  blocks_for-Blocks req ch bs at size to =
      let whole : min req.to_height ch.height + 1 - req.from_height
          ≡ min blocks_per_batch (length bs) =
        omega arith in
      ap (λ m. filter_map (λ h. block_at h ch) (take blocks_per_batch (heights req.from_height m)))
        whole
      ∙ ap (filter_map (λ h. block_at h ch)) (
          take-heights blocks_per_batch (min blocks_per_batch (length bs)) req.from_height
          ∙ ap (heights req.from_height)
              {x = min blocks_per_batch (min blocks_per_batch (length bs))}
              {y = min blocks_per_batch (length bs)} (omega arith))
      ∙ filter_map-heights ch (min blocks_per_batch (length bs)) req.from_height bs at (omega arith)

  -- Catching up with a node that holds the blocks gives all of them, in order.
  pub run_sync_client-Blocks :
      (fuel next req_id : ℕ) (ch : Chain c) (bs : List Block)
      → Blocks ch next bs
      → next + length bs ≡ ch.height + 1
      → ch.height + blocks_per_batch < u64_mod
      → length bs ≤ fuel
      → run_sync_client fuel (asked ch) next ch.height req_id ≡ bs
  unfolding run_sync_client Blocks serve
  run_sync_client-Blocks zero next req_id ch [] at size bound enough = refl
  run_sync_client-Blocks zero next req_id ch (b ∷ bs) at size bound enough = absurd (omega arith)
  run_sync_client-Blocks (suc fuel) next req_id ch [] at size bound enough =
      let done : leb next ch.height ≡ false = ground arith in rw (done, run_sync_client) refl
  run_sync_client-Blocks (suc fuel) next req_id ch (b ∷ bs) at size bound enough =
      let all = b ∷ bs in
      let n = min blocks_per_batch (length all) in
      let to = min (add64 next (blocks_per_batch - 1)) ch.height in
      let last : to + 1 ≡ next + n = omega arith in
      let more : leb next ch.height ≡ true = ground arith in
      let req : BlockRequest = record { from_height = next; to_height = to; request_id = req_id } in
      let later : add64 to 1 ≡ next + n = omega arith in
      let rest =
        run_sync_client-Blocks fuel (add64 to 1) (add64 req_id 1) ch (drop n all)
          (λ i x e.
            subst (λ m. block_at m ch ≡ some x) (omega (arith, later))
              (at (n + i) x (sym (get_elem?-drop n i all) ∙ e)))
          (omega (arith, length-drop n all, later)) bound (omega (arith, length-drop n all)) in
      let batch = blocks_for-Blocks req ch all at size last in
      rw (more, run_sync_client)
        (ap (λ l. l ++ run_sync_client fuel (asked ch) (add64 to 1) ch.height (add64 req_id 1))
            batch
          ∙ ap (λ l. take n all ++ l) rest
          ∙ take-drop n all)
