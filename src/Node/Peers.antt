-- ===== src/Node/Peers.antt =====
-- The sync protocol of src/main.rs: how `handle_peer_inbound` answers a peer, how `run_sync_client`
-- catches up with a seed, and what the main loop does with the blocks that come in.
pub mod Requests
pub mod CatchUp
use mathlib.Core.List.{filter_map}
use cipher_x.Prelude.{
  ℕ, zero, suc, ◌+◌, ◌-◌, true, false, not, Option, none, some, List, [], ◌∷◌, ◌++◌, take, leb,
  if◌then◌else◌, min, add64,
}
use cipher_x.Core.Types.{Block}
use cipher_x.Core.Chain.{Chain, block_at}
use cipher_x.Core.Chain.Append.{append_block}
use cipher_x.Crates.{Crates}
use cipher_x.Network.P2p.{BlockRequest}
use cipher_x.Network.Frames.{NetworkMessage, block_request, block_response, bye}

abbrev pub blocks_per_batch : ℕ
blocks_per_batch = 100

-- `n` heights, from `h`.
unfoldable pub heights : ℕ → ℕ → List ℕ
heights h zero = []
heights h (suc n) = h ∷ heights (suc h) n

-- What a peer's message leads to.
pub data Served : Type 0 where
  responds : NetworkMessage → Served
  waits closes : Served

module _ {c : Crates} where
  -- The blocks of `from_height..=end`, a batch at most.
  unfoldable pub blocks_for : BlockRequest → Chain c → List Block
  unfolding heights filter_map
  blocks_for req ch =
      let end = min req.to_height ch.height in
      filter_map (λ h. block_at h ch)
        (take blocks_per_batch (heights req.from_height (end + 1 - req.from_height)))

  unfoldable pub serve : NetworkMessage → Chain c → Served
  unfolding blocks_for
  serve (block_request req) ch =
      responds (block_response (record { request_id = req.request_id; blocks = blocks_for req ch }))
  serve bye ch = closes
  serve _ ch = waits

  -- The main loop: each block goes to `append_block`, errors are ignored.
  unfoldable pub apply_received : List Block → Chain c → Chain c
  apply_received [] ch = ch
  apply_received (b ∷ bs) ch = apply_received bs (append_block b ch).0

abbrev pub blocks_of : Option NetworkMessage → Option (List Block)
blocks_of (some (block_response resp)) = some resp.blocks
blocks_of _ = none

-- The blocks that are passed on while catching up, where `ask` sends a message and receives the
-- next one, or fails. Each round goes at least one height up, so the number of heights is enough
-- fuel.
unfoldable pub run_sync_client :
    ℕ → (NetworkMessage → Option NetworkMessage) → ℕ → ℕ → ℕ → List Block
run_sync_client zero ask next seed_height req_id = []
run_sync_client (suc fuel) ask next seed_height req_id =
    let to = min (add64 next (blocks_per_batch - 1)) seed_height in
    let req : BlockRequest = record { from_height = next; to_height = to; request_id = req_id } in
    elim (leb next seed_height) [
      | false ↦ []
      | true ↦ elim (blocks_of (ask (block_request req))) [
        | none ↦ []
        | some blocks ↦ blocks ++ run_sync_client fuel ask (add64 to 1) seed_height (add64 req_id 1)
      ]
    ]
