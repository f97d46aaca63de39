-- ===== src/Node/RpcServer.antt =====
-- `run_rpc_server` of src/main.rs: the state that the requests see, and the answer to one request.
use cipher_x.Prelude.{
  ℕ, false, Option, List, Bytes, Bytes-discrete, map, replicate, if◌then◌else◌, is_yes, mul64,
}
use cipher_x.Std.Encoding.{ascii}
use cipher_x.Core.Types.{Transaction}
use cipher_x.Core.Chain.{Chain, UtxoEntry, all_utxos, stats}
use cipher_x.Core.Transaction.{LiteRaw}
use cipher_x.Crates.{Crates}
use cipher_x.Network.Rpc.{
  BlockOutputRef, NodeState, Json, RpcRequest, RpcResponse, handle_request, handle_send_raw_tx,
}

module _ (hex_encode : Bytes → Bytes) where
  unfoldable pub output_ref : UtxoEntry → BlockOutputRef
  output_ref u = record {
    tx_pubkey = hex_encode u.output.tx_pubkey;
    one_time_pubkey = hex_encode u.output.one_time_pubkey;
    amount_commitment = hex_encode u.output.amount_commitment;
    encrypted_amount = hex_encode u.output.encrypted_amount;
    output_index = u.output_index;
    tx_id = hex_encode u.tx_id;
    block_height = u.block_height;
  }

  unfoldable pub node_state : {c : Crates} → ℕ → Chain c → NodeState
  unfolding output_ref
  node_state peer_count ch =
      let s = stats ch in
      record {
        chain_height = s.height;
        tip_hash = replicate 32 0;
        peer_count = peer_count;
        syncing = false;
        base_fee_per_gas = 0;
        circulating_supply_ncip = mul64 s.circulating_supply_cip 1_000_000_000;
        block_reward_ncip = mul64 s.next_block_reward_cip 1_000_000_000;
        block_outputs = map output_ref (all_utxos ch);
      }

  -- The answer to a request at the clock's reading `now`, and the pending transactions after it.
  unfoldable pub answer :
      {c : Crates} (j : Json)
      → (Bytes → Option Bytes)
      → (Bytes → Option Bytes)
      → (Bytes → Option LiteRaw)
      → ℕ
      → RpcRequest j
      → ℕ
      → Chain c
      → List Transaction
      → List Transaction × RpcResponse j
  unfolding node_state
  answer {c} j hex_decode from_utf8 from_str now request peer_count ch mempool =
      if is_yes (Bytes-discrete request.method (ascii "cipherx_sendRawTransaction"))
      then handle_send_raw_tx j c hex_decode from_utf8 from_str request mempool
      else (mempool, handle_request j request now (node_state peer_count ch))
