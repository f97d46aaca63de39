-- ===== src/Wallet/Client.antt =====
-- The RPC client of src/bin/wallet.rs. The HTTP exchange and JSON values are parameters.
use mathlib.Core.List.{filter_map}
use cipher_x.Prelude.{
  ℕ, ◌+◌, ◌-◌, ◌*◌, ◌%◌, true, false, not, ◌&&◌, Option, none, some, List, [], ◌∷◌, Bytes, length,
  ltb, leb, ◌==◌, if◌then◌else◌, u32_mod, u64_mod,
}
use cipher_x.Std.Encoding.{ascii}
use cipher_x.Std.Options.{◌>>=◌}
use cipher_x.Wallet.Mnemonic.{or_empty}

-- `unwrap_or(0)`
abbrev pub or_zero : Option ℕ → ℕ
or_zero none = 0
or_zero (some n) = n

-- serde_json: `json!`, `as_str`, `as_array`, and the members of an object as text or number.
pub record JsonValues : Type 1 where
  pub Value : Type 0
  pub json_u64 : ℕ → Value
  pub json_str : Bytes → Value
  pub as_str : Value → Option Bytes
  pub as_array : Value → Option (List Value)
  pub str_field : Bytes → Value → Option Bytes
  pub u64_field : Bytes → Value → Option ℕ

-- An output as the node lists it, and as the wallet keeps it; keys in hexadecimal.
pub record DetectedOutput : Type 0 where
  pub tx_pubkey : Bytes
  pub one_time_pubkey : Bytes
  pub encrypted_amount : Bytes
  pub block_height : ℕ
  pub output_index : ℕ
  pub tx_id : Bytes

-- `u64::from_str_radix(digits, 16)`
abbrev hex_digit : ℕ → Option ℕ
hex_digit b =
    if leb b'0' b && leb b b'9'
    then some (b - b'0')
    else if leb b'a' b && leb b b'f'
    then some (b - b'a' + 10)
    else if leb b'A' b && leb b b'F'
    then some (b - b'A' + 10)
    else none

hex_digits : ℕ → Bytes → Option ℕ
hex_digits n [] = some n
hex_digits n (b ∷ bs) = elim (hex_digit b) [
  | none ↦ none
  | some d ↦ elim (ltb (n * 16 + d) u64_mod) [ true ↦ hex_digits (n * 16 + d) bs | false ↦ none ]
]

unsigned_digits : Bytes → Bytes
unsigned_digits [] = []
unsigned_digits (b ∷ bs) = if (b == b'+') && not (length bs == 0) then bs else b ∷ bs

unfoldable pub from_str_radix_16 : Bytes → Option ℕ
unfolding hex_digits unsigned_digits
from_str_radix_16 text = if length text == 0 then none else hex_digits 0 (unsigned_digits text)

-- `trim_start_matches("0x")`
unfoldable pub trim_0x : Bytes → Bytes
trim_0x [] = []
trim_0x (a ∷ []) = a ∷ []
trim_0x (a ∷ b ∷ bs) =
    let rest = trim_0x bs in if (a == b'0') && (b == b'x') then rest else a ∷ b ∷ bs

module _ (j : JsonValues) where
  open j use {Value, json_u64, json_str, as_str, as_array, str_field, u64_field}

  pub record RpcRequest : Type 0 where
    pub jsonrpc : Bytes
    pub id : ℕ
    pub method : Bytes
    pub params : List Value

  pub record RpcResponse : Type 0 where
    pub result : Option Value
    pub error : Option Value

  -- One HTTP exchange with the node; `none` is any failure of it.
  abbrev pub Post : Type 0
  Post = RpcRequest → Option RpcResponse

  unfoldable pub rpc_call : Post → Bytes → List Value → Option Value
  rpc_call post method params = do
    let req : RpcRequest = record {
      jsonrpc = ascii "2.0";
      id = 1;
      method = method;
      params = params;
    }
    resp ← post req
    resp.result

  -- `get_chain_height`, `get_gas_price` and `get_peer_count`, which differ in the method.
  unfoldable pub hex_call : Post → Bytes → Option ℕ
  unfolding rpc_call trim_0x from_str_radix_16
  hex_call post method = do
    result ← rpc_call post method []
    hex_str ← as_str result
    from_str_radix_16 (trim_0x hex_str)

  unfoldable pub get_chain_height : Post → Option ℕ
  unfolding hex_call
  get_chain_height post = hex_call post (ascii "cipherx_blockNumber")

  unfoldable pub get_gas_price : Post → Option ℕ
  unfolding hex_call
  get_gas_price post = hex_call post (ascii "cipherx_gasPrice")

  unfoldable pub get_peer_count : Post → Option ℕ
  unfolding hex_call
  get_peer_count post = hex_call post (ascii "cipherx_peerCount")

  -- An item of the answer; those without keys are skipped.
  unfoldable pub read_item : Value → Option DetectedOutput
  read_item item =
      let tx_pubkey = or_empty (str_field (ascii "tx_pubkey") item) in
      let one_time_pubkey = or_empty (str_field (ascii "one_time_pubkey") item) in
      if not (length tx_pubkey == 0) && not (length one_time_pubkey == 0)
      then some (record {
        tx_pubkey = tx_pubkey;
        one_time_pubkey = one_time_pubkey;
        encrypted_amount = or_empty (str_field (ascii "encrypted_amount") item);
        block_height = or_zero (u64_field (ascii "block_height") item);
        output_index = or_zero (u64_field (ascii "output_index") item) % u32_mod;
        tx_id = or_empty (str_field (ascii "tx_id") item);
      })
      else none

  unfoldable pub read_items : Option (List Value) → List DetectedOutput
  unfolding read_item filter_map
  read_items none = []
  read_items (some items) = filter_map read_item items

  unfoldable pub get_outputs_in_range : Post → ℕ → ℕ → List DetectedOutput
  unfolding rpc_call read_items
  get_outputs_in_range post from to =
      read_items
        (rpc_call post (ascii "cipherx_getOutputs") (json_u64 from ∷ json_u64 to ∷ []) >>= as_array)
