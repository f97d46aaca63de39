-- ===== src/Tests/Payments.antt =====
-- The scan and a payment over the field of three elements, against a node of one output.
use cipher_x.Prelude.{
  ℕ, ◌≡◌, refl, Bool, true, false, Option, none, some, List, [], ◌∷◌, ◌++◌, Bytes, Bytes-discrete,
  ℕ_discrete, filter, if◌then◌else◌, is_yes, max, arith,
}
use cipher_x.Std.Encoding.{ascii}
use cipher_x.Core.Types.{lite, Transaction, StealthOutput}
use cipher_x.Core.Transaction.{LiteRaw}
use cipher_x.Network.Rpc.{Json, handle_send_raw_tx}
use cipher_x.Network.Rpc
use cipher_x.Node.RpcServer.{output_ref}
use cipher_x.Wallet.Address.{derive_keys}
use cipher_x.Wallet.Client.{
  DetectedOutput, JsonValues, RpcResponse, Post, get_chain_height, hex_call, rpc_call, trim_0x,
  from_str_radix_16, get_outputs_in_range, read_items, read_item,
}
use cipher_x.Wallet.Scan.{default_state, total_ncip, cmd_balance}
use cipher_x.Wallet.Scan.Sums.{in_blocks}
use cipher_x.Wallet.Scan.Complete.{
  balance, history, Answers, run_commands, cmd_balance_complete, failed_scan-loses,
}
use cipher_x.Wallet.Send.{Payload, submit, cmd_send}
use cipher_x.Wallet.Send.Received.{listed, raw_of, cmd_send-received}
use cipher_x.Tests.Field.{i, t, field, field-GroupLaws, field-AeadLaws, encode}
use cipher_x.Std.Options.{◌>>=◌}
use cipher_x.Tests.Wallet.{put, get, get-put, phrase, plain, plain-CodecLaws, field-SizeLaws}

-- What a request or an answer of the node holds.
data Value : Type 0 where
  number : ℕ → Value
  text : Bytes → Value
  outputs : List DetectedOutput → Value
  item : DetectedOutput → Value

abbrev items : List DetectedOutput → List Value
items [] = []
items (o ∷ os) = item o ∷ items os

abbrev is_name : Bytes → Bytes → Bool
is_name a b = is_yes (Bytes-discrete a b)

abbrev member : Bytes → DetectedOutput → Option Bytes
member name o =
    if is_name name (ascii "tx_pubkey")
    then some o.tx_pubkey
    else if is_name name (ascii "one_time_pubkey")
    then some o.one_time_pubkey
    else if is_name name (ascii "encrypted_amount")
    then some o.encrypted_amount
    else some o.tx_id

abbrev json : JsonValues
json = record {
  Value = Value;
  json_u64 = number;
  json_str = text;
  as_str = λ v. elim v [ number n ↦ none | text b ↦ some b | outputs os ↦ none | item o ↦ none ];
  as_array = λ v. elim v [
    | number n ↦ none
    | text b ↦ none
    | outputs os ↦ some (items os)
    | item o ↦ none
  ];
  str_field = λ name v. elim v [
    | number n ↦ none
    | text b ↦ none
    | outputs os ↦ none
    | item o ↦ member name o
  ];
  u64_field = λ name v. elim v [
    | number n ↦ none
    | text b ↦ none
    | outputs os ↦ none
    | item o ↦
        if is_name name (ascii "block_height") then some o.block_height else some o.output_index
  ];
}

abbrev paid : DetectedOutput
paid = record {
  tx_pubkey = encode t;
  one_time_pubkey = encode i;
  encrypted_amount = [];
  block_height = 3;
  output_index = 0;
  tx_id = ascii "a";
}

abbrev reply : Value → Option (RpcResponse json)
reply v = some (record { result = some v; error = none })

abbrev in_range : List Value → List DetectedOutput
in_range (number from ∷ number to ∷ []) = filter (in_blocks from to) (paid ∷ [])
in_range _ = []

-- A node that answers.
abbrev serving : Post json
serving request =
    if is_name request.method (ascii "cipherx_blockNumber")
    then reply (text (ascii "0x5"))
    else reply (outputs (in_range request.params))

-- A node that only tells its height.
abbrev failing : Post json
failing request =
    if is_name request.method (ascii "cipherx_blockNumber")
    then reply (text (ascii "0x4"))
    else none

abbrev if_paid : Bool → List DetectedOutput
if_paid b = filter (λ o. b) (paid ∷ [])

read_paid : (b : Bool) → read_items json (some (items (if_paid b))) ≡ if_paid b
unfolding read_items read_item Bytes-discrete ℕ_discrete
read_paid true = refl
read_paid false = refl

answers : Answers field plain json (derive_keys field plain phrase) (paid ∷ []) serving
unfolding get_chain_height hex_call rpc_call trim_0x from_str_radix_16 get_outputs_in_range
    read_items read_item Bytes-discrete ℕ_discrete
answers = record {
  height = 5;
  fits = omega arith;
  at_height = refl;
  lists = λ from to h k. read_paid (in_blocks from to paid);
}

cmd_balance_complete_example :
    ((cmd_balance field plain json (derive_keys field plain phrase) serving (
        run_commands field plain json
          (derive_keys field plain phrase)
          ((history 10, serving) ∷ (balance, serving) ∷ [])
          default_state)).1
      ≡ some (
          total_ncip field plain (derive_keys field plain phrase) (
            filter
              (in_blocks 1
                (cmd_balance field plain json (derive_keys field plain phrase) serving (
                  run_commands field plain json
                    (derive_keys field plain phrase)
                    ((history 10, serving) ∷ (balance, serving) ∷ [])
                    default_state)).0.last_scanned_block)
              (paid ∷ []))))
    × ((cmd_balance field plain json (derive_keys field plain phrase) serving (
          run_commands field plain json
            (derive_keys field plain phrase)
            ((history 10, serving) ∷ (balance, serving) ∷ [])
            default_state)).0.last_scanned_block
        ≡ max
            (run_commands field plain json
              (derive_keys field plain phrase)
              ((history 10, serving) ∷ (balance, serving) ∷ [])
              default_state).last_scanned_block
            5)
unfolding answers
cmd_balance_complete_example =
    cmd_balance_complete field plain json (derive_keys field plain phrase) (paid ∷ [])
      ((history 10, serving) ∷ (balance, serving) ∷ []) serving (answers, (answers, tt)) answers

failed_height : get_chain_height json failing ≡ some 4
unfolding get_chain_height hex_call rpc_call trim_0x from_str_radix_16 Bytes-discrete ℕ_discrete
failed_height = refl

nothing_listed : get_outputs_in_range json failing 1 4 ≡ []
unfolding get_outputs_in_range read_items rpc_call Bytes-discrete ℕ_discrete
nothing_listed = refl

failed_scan-loses_example :
    (cmd_balance field plain json (derive_keys field plain phrase) serving (
      run_commands field plain json
        (derive_keys field plain phrase)
        ((balance, failing) ∷ (history 10, serving) ∷ [])
        default_state)).1
    ≡ some (
        total_ncip field plain (derive_keys field plain phrase) (
          filter
            (in_blocks 5
              (cmd_balance field plain json (derive_keys field plain phrase) serving (
                run_commands field plain json
                  (derive_keys field plain phrase)
                  ((balance, failing) ∷ (history 10, serving) ∷ [])
                  default_state)).0.last_scanned_block)
            (paid ∷ [])))
failed_scan-loses_example =
    failed_scan-loses field plain json (derive_keys field plain phrase) (paid ∷ []) failing 4
      ((history 10, serving) ∷ []) serving failed_height (omega arith) (omega arith) nothing_listed
      (answers, tt) answers

-- A text that holds the fields with their lengths.
unfoldable write_payload : Payload → Bytes
write_payload p =
    put p.tx_pubkey (put p.one_time_pubkey (put p.encrypted_amount (p.amount_ncip ∷ [])))

read_payload : Bytes → Option LiteRaw
read_payload b0 = do
  (tx_pubkey, b1) ← get b0
  (one_time_pubkey, b2) ← get b1
  (encrypted_amount, b3) ← get b2
  some (record {
    tx_pubkey = tx_pubkey;
    one_time_pubkey = one_time_pubkey;
    encrypted_amount = encrypted_amount;
  })

read-write_payload : (p : Payload) → read_payload (write_payload p) ≡ some (raw_of p)
unfolding read_payload write_payload
read-write_payload p =
    rw (get-put p.tx_pubkey _, get-put p.one_time_pubkey _, get-put p.encrypted_amount _) refl

-- The node's JSON values are texts.
abbrev texts : Json
texts = record { Value = Bytes; as_u64 = λ b. none; as_str = λ b. some b }

abbrev sending : Bytes → Rpc.RpcRequest texts
sending b = record { id = []; method = ascii "cipherx_sendRawTransaction"; params = b ∷ [] }

cmd_send-received_example :
    (p : Payload) × (tx : Transaction) × (o : StealthOutput) × ((post : Post json)
      → cmd_send field plain json write_payload
          (derive_keys field plain phrase).address
          1200
          t
          true
          post
        ≡ submit field plain json write_payload post p)
    × ((queue : List Transaction)
        → (handle_send_raw_tx texts field plain.hex_decode
            (λ b. some b)
            read_payload
            (sending (plain.hex_encode (write_payload p)))
            queue).0
          ≡ queue ++ tx ∷ [])
    × (tx.tx_type ≡ lite)
    × (tx.inputs ≡ [])
    × (tx.outputs ≡ o ∷ [])
    × ((height : ℕ) (tx_id : Bytes)
        → total_ncip field plain (derive_keys field plain phrase) (
            listed (
              output_ref plain.hex_encode
                (record { output = o; block_height = height; tx_id = tx_id; output_index = 0 }))
            ∷ [])
          ≡ 1200)
    × (tx.extra ≡ write_payload p)
    × (p.amount_ncip ≡ 1200)
cmd_send-received_example =
    cmd_send-received plain field-GroupLaws field-SizeLaws plain-CodecLaws field-AeadLaws json
      write_payload read_payload read-write_payload (λ b. some b) (λ p. refl) texts sending
      (λ b. refl) phrase 1200 t (omega arith)
