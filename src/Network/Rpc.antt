-- ===== src/Network/Rpc.antt =====
-- src/network/rpc.rs: the requests. A JSON value is abstract, and a result is what goes into its JSON;
-- error texts and the progress in f64 are left out.
pub mod Outputs
use cipher_x.Prelude.{
  ℕ, suc, ◌/◌, ◌≤◌, ◌≡◌, refl, sym, ap, ◌∙◌, Bool, true, false, ◌&&◌, Option, none, some, List, [],
  ◌∷◌, ◌++◌, Bytes, Bytes-discrete, length, get_elem?, ltb, leb, ◌==◌, if◌then◌else◌, is_yes, arith,
  Bool-cases, inl, inr,
}
use cipher_x.Std.Encoding.{ascii}
use cipher_x.Std.Options.{◌>>=◌}
use cipher_x.Core.Types.{Transaction, TxId}
use cipher_x.Core.Transaction.{LiteRaw, from_lite_raw}
use cipher_x.Core.Transaction
use cipher_x.Crates.{Crates}

pub data RpcErrorCode : Type 0 where
  err_method err_params err_internal err_not_found : RpcErrorCode

pub record BlockOutputRef : Type 0 where
  pub tx_pubkey : Bytes
  pub one_time_pubkey : Bytes
  pub amount_commitment : Bytes
  pub encrypted_amount : Bytes
  pub output_index : ℕ
  pub tx_id : Bytes
  pub block_height : ℕ

pub record NodeState : Type 0 where
  pub chain_height : ℕ
  pub tip_hash : Bytes
  pub peer_count : ℕ
  pub syncing : Bool
  pub base_fee_per_gas : ℕ
  pub circulating_supply_ncip : ℕ
  pub block_reward_ncip : ℕ
  pub block_outputs : List BlockOutputRef

-- The results; of a block: height, hash, timestamp, number of transactions, outputs.
pub data Reply : Type 0 where
  hex_number number : ℕ → Reply
  block_reply : ℕ → Bytes → ℕ → ℕ → List BlockOutputRef → Reply
  outputs_reply : List BlockOutputRef → Reply
  sync_reply : Bool → ℕ → Reply
  status_unknown : Bytes → Reply
  tx_id_reply : TxId → Reply
  chain_id protocol_version : Reply
  supply_reply : ℕ → ℕ → ℕ → ℕ → ℕ → Reply
  balance_reply : ℕ → ℕ → Reply

-- `filter(p)` and `collect`
unfoldable pub select : (BlockOutputRef → Bool) → List BlockOutputRef → List BlockOutputRef
select p [] = []
select p (o ∷ os) = let rest = select p os in if p o then o ∷ rest else rest

-- A JSON value, as far as the handlers look into it.
pub record Json : Type 1 where
  pub Value : Type 0
  pub as_u64 : Value → Option ℕ
  pub as_str : Value → Option Bytes

module _ (j : Json) where
  open j use {Value, as_u64, as_str}

  pub record RpcRequest : Type 0 where
    pub id : Value
    pub method : Bytes
    pub params : List Value

  pub record RpcResponse : Type 0 where
    pub id : Value
    pub result : Option Reply
    pub error : Option RpcErrorCode

  unfoldable pub response_ok : Value → Reply → RpcResponse
  response_ok id reply = record { id = id; result = some reply; error = none }

  unfoldable pub response_err : Value → RpcErrorCode → RpcResponse
  response_err id code = record { id = id; result = none; error = some code }

  -- `params.get(i).and_then(..)`
  abbrev pub param : {A : Type 0} → (Value → Option A) → ℕ → List Value → Option A
  param f i params = get_elem? params i >>= f

  -- At the clock's reading `now`.
  unfoldable pub rpc_get_block : Value → List Value → ℕ → NodeState → RpcResponse
  unfolding response_ok response_err select
  rpc_get_block id params now state = elim (param as_u64 0 params) [
    | none ↦ response_err id err_params
    | some height ↦
        if ltb state.chain_height height
        then response_err id err_not_found
        else (let outputs = select (λ o. o.block_height == height) state.block_outputs in
            response_ok id (
              block_reply height state.tip_hash now (if length outputs == 0 then 0 else 1) outputs))
  ]

  unfoldable pub rpc_get_outputs : Value → List Value → NodeState → RpcResponse
  unfolding response_ok response_err select
  rpc_get_outputs id params state = elim (param as_u64 0 params) [
    | none ↦ response_err id err_params
    | some from ↦ elim (param as_u64 1 params) [
      | none ↦ response_err id err_params
      | some to ↦
          if ltb to from
          then response_err id err_params
          else if ltb state.chain_height to
          then response_err id err_not_found
          else response_ok id (
              outputs_reply (
                select (λ o. leb from o.block_height && leb o.block_height to) state.block_outputs))
    ]
  ]

  unfoldable pub rpc_tx_status : Value → List Value → RpcResponse
  unfolding response_ok response_err
  rpc_tx_status id params = elim (param as_str 0 params) [
    | none ↦ response_err id err_params
    | some tx_id ↦ response_ok id (status_unknown tx_id)
  ]

  unfoldable pub rpc_block_number : Value → NodeState → RpcResponse
  unfolding response_ok
  rpc_block_number id state = response_ok id (hex_number state.chain_height)

  unfoldable pub rpc_get_block_count : Value → NodeState → RpcResponse
  unfolding response_ok
  rpc_get_block_count id state = response_ok id (number state.chain_height)

  unfoldable pub rpc_gas_price : Value → NodeState → RpcResponse
  unfolding response_ok
  rpc_gas_price id state = response_ok id (hex_number state.base_fee_per_gas)

  unfoldable pub rpc_sync_status : Value → NodeState → RpcResponse
  unfolding response_ok
  rpc_sync_status id state = response_ok id (sync_reply state.syncing state.chain_height)

  unfoldable pub rpc_peer_count : Value → NodeState → RpcResponse
  unfolding response_ok
  rpc_peer_count id state = response_ok id (hex_number state.peer_count)

  -- `handle_send_raw_tx` is called in its place.
  unfoldable pub rpc_send_raw_tx : Value → List Value → RpcResponse
  unfolding response_err
  rpc_send_raw_tx id params = response_err id err_internal

  unfoldable pub rpc_chain_id : Value → RpcResponse
  unfolding response_ok
  rpc_chain_id id = response_ok id chain_id

  unfoldable pub rpc_protocol_version : Value → RpcResponse
  unfolding response_ok
  rpc_protocol_version id = response_ok id protocol_version

  unfoldable pub rpc_get_supply : Value → NodeState → RpcResponse
  unfolding response_ok
  rpc_get_supply id state = response_ok id (
      supply_reply state.circulating_supply_ncip (state.circulating_supply_ncip / 1000000000)
        100000000 state.block_reward_ncip (state.block_reward_ncip / 1000000000))

  unfoldable pub rpc_wallet_balance : Value → NodeState → RpcResponse
  unfolding response_ok
  rpc_wallet_balance id state =
      response_ok id
        (balance_reply state.circulating_supply_ncip (state.circulating_supply_ncip / 1000000000))

  -- `request.method == name`
  abbrev named : Bytes → RpcRequest → Bool
  named name request = is_yes (Bytes-discrete request.method name)

  unfoldable pub handle_request : RpcRequest → ℕ → NodeState → RpcResponse
  unfolding rpc_get_block rpc_get_outputs rpc_tx_status rpc_block_number rpc_get_block_count
      rpc_gas_price rpc_sync_status rpc_peer_count rpc_send_raw_tx rpc_chain_id rpc_protocol_version
      rpc_get_supply rpc_wallet_balance
  handle_request request now state =
      let id = request.id in
      if named (ascii "cipherx_blockNumber") request
      then rpc_block_number id state
      else if named (ascii "cipherx_getBlockCount") request
      then rpc_get_block_count id state
      else if named (ascii "cipherx_getBlock") request
      then rpc_get_block id request.params now state
      else if named (ascii "cipherx_getOutputs") request
      then rpc_get_outputs id request.params state
      else if named (ascii "cipherx_gasPrice") request
      then rpc_gas_price id state
      else if named (ascii "cipherx_syncStatus") request
      then rpc_sync_status id state
      else if named (ascii "cipherx_peerCount") request
      then rpc_peer_count id state
      else if named (ascii "cipherx_getTxStatus") request
      then rpc_tx_status id request.params
      else if named (ascii "cipherx_sendRawTransaction") request
      then rpc_send_raw_tx id request.params
      else if named (ascii "cipherx_chainId") request
      then rpc_chain_id id
      else if named (ascii "cipherx_protocolVersion") request
      then rpc_protocol_version id
      else if named (ascii "cipherx_getSupply") request
      then rpc_get_supply id state
      else if named (ascii "wallet_getBalance") request
      then rpc_wallet_balance id state
      else if named (ascii "net_version") request
      then rpc_chain_id id
      else response_err id err_method

  -- With the decoders of hex, UTF-8 and serde_json; the queue that the node drains.
  unfoldable pub handle_send_raw_tx :
      Crates
      → (Bytes → Option Bytes)
      → (Bytes → Option Bytes)
      → (Bytes → Option LiteRaw)
      → RpcRequest
      → List Transaction
      → List Transaction × RpcResponse
  unfolding response_ok response_err
  handle_send_raw_tx c hex_decode from_utf8 from_str request mempool =
      elim (param as_str 0 request.params) [
        | none ↦ (mempool, response_err request.id err_params)
        | some raw_hex ↦ elim (hex_decode raw_hex >>= from_utf8) [
          | none ↦ (mempool, response_err request.id err_params)
          | some json_str ↦ elim (from_lite_raw from_str hex_decode json_str) [
            | none ↦ (mempool, response_err request.id err_params)
            | some tx ↦
                (mempool ++ tx ∷ [], response_ok request.id (tx_id_reply (Transaction.id c tx)))
          ]
        ]
      ]
