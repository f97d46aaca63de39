-- ===== src/Network/Rpc/Outputs.antt =====
-- The outputs that src/network/rpc.rs gives out by range and by block.
use cipher_x.Prelude.{
  ℕ, ◌≤◌, ◌≡◌, refl, sym, ap, ◌∙◌, false, ◌&&◌, some, List, [], ◌∷◌, length, ltb, leb, ◌==◌,
  if◌then◌else◌, arith, Bool-cases, inl, inr,
}
use cipher_x.Network.Rpc.{
  BlockOutputRef, NodeState, Json, select, param, response_ok, outputs_reply, block_reply,
  rpc_get_outputs, rpc_get_block,
}

select-select :
    (height from to : ℕ) (os : List BlockOutputRef)
    → from ≤ height
    → height ≤ to
    → select
        (λ o. o.block_height == height)
        (select (λ o. leb from o.block_height && leb o.block_height to) os)
      ≡ select (λ o. o.block_height == height) os
unfolding select
select-select height from to [] low high = refl
select-select height from to (o ∷ os) low high =
    let rest = select-select height from to os low high in
    elim (Bool-cases (leb from o.block_height && leb o.block_height to)) [
      | inl inside ↦ rw (inside, rest) refl
      | inr outside ↦
          let other : (o.block_height == height) ≡ false = ground arith in rw (outside, other) rest
    ]

module _ (j : Json) where
  open j use {Value, as_u64}

  get_outputs-answer :
      (id : Value) (params : List Value) (state : NodeState) (from to : ℕ)
      → param j as_u64 0 params ≡ some from
      → param j as_u64 1 params ≡ some to
      → from ≤ to
      → to ≤ state.chain_height
      → rpc_get_outputs j id params state
        ≡ response_ok j id (
            outputs_reply
              (select (λ o. leb from o.block_height && leb o.block_height to) state.block_outputs))
  unfolding rpc_get_outputs
  get_outputs-answer id params state from to e f low high =
      let ordered : ltb to from ≡ false = ground arith in
      let reached : ltb state.chain_height to ≡ false = ground arith in
      rw (rpc_get_outputs, e, f, ordered, reached) refl

  get_block-answer :
      (id : Value) (params : List Value) (now : ℕ) (state : NodeState) (height : ℕ)
      → param j as_u64 0 params ≡ some height
      → height ≤ state.chain_height
      → let outputs = select (λ o. o.block_height == height) state.block_outputs in
        rpc_get_block j id params now state
        ≡ response_ok j id
            (block_reply height state.tip_hash now (if length outputs == 0 then 0 else 1) outputs)
  unfolding rpc_get_block
  get_block-answer id params now state height e high =
      let reached : ltb state.chain_height height ≡ false = ground arith in
      rw (rpc_get_block, e, reached) refl

  -- For a range of heights that the chain has reached, and a height in it: cipherx_getOutputs for
  -- the range and cipherx_getBlock for the height are answered, and the outputs of the block are
  -- those of the range that have its height.
  pub rpc_get_block-rpc_get_outputs :
      (id : Value) (params block_params : List Value) (now : ℕ) (state : NodeState)
      (from to height : ℕ)
      → param j as_u64 0 params ≡ some from
      → param j as_u64 1 params ≡ some to
      → param j as_u64 0 block_params ≡ some height
      → from ≤ height
      → height ≤ to
      → to ≤ state.chain_height
      → (os : List BlockOutputRef) × (count : ℕ) × (rpc_get_outputs j id params state
          ≡ response_ok j id (outputs_reply os))
        × (rpc_get_block j id block_params now state
            ≡ response_ok j id (
                block_reply height state.tip_hash now count
                  (select (λ o. o.block_height == height) os)))
  rpc_get_block-rpc_get_outputs id params block_params now state from to height e f g low high
        reached =
      (
        _,
        _,
        get_outputs-answer id params state from to e f (omega arith) reached,
        get_block-answer id block_params now state height g (omega arith)
            ∙ ap
                (λ os. response_ok j id (
                  block_reply height state.tip_hash now
                    (if length (select (λ o. o.block_height == height) state.block_outputs) == 0
                      then 0
                      else 1)
                    os))
                (sym (select-select height from to state.block_outputs low high)),
      )
