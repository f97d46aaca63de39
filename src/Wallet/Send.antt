-- ===== src/Wallet/Send.antt =====
-- `cmd_send` of src/bin/wallet.rs. The amount is in nCIP: the conversion from f64 and its checks are
-- left out, and so are the sender's wallet, of which only the address is shown, and what is printed.
-- The random scalar of the output and the user's answer are arguments.
pub mod Received
use cipher_x.Prelude.{
  ℕ, Bool, true, false, not, ◌||◌, Option, none, some, List, [], ◌∷◌, Bytes, Bytes-discrete, length,
  ltb, if◌then◌else◌, is_yes,
}
use cipher_x.Std.Encoding.{ascii}
use cipher_x.Std.Options.{◌>>=◌}
use cipher_x.Std.Result.{Result, ok, err}
use cipher_x.Core.Types.{StealthAddress}
use cipher_x.Crates.{Crates}
use cipher_x.Crypto.Stealth.{StealthOutputKeys, generate_output}
use cipher_x.Crypto.Amount.{encrypt_amount}
use cipher_x.Wallet.Data.{Codecs}
use cipher_x.Wallet.Address.{prefix, strip, is_some, parse_cx1_address}
use cipher_x.Wallet.Client.{JsonValues, Post, rpc_call}

-- The JSON object that is sent; keys and encrypted amount in hexadecimal.
pub record Payload : Type 0 where
  pub tx_pubkey : Bytes
  pub one_time_pubkey : Bytes
  pub encrypted_amount : Bytes
  pub amount_ncip : ℕ

pub data SendError : Type 0 where
  invalid_address undecodable_address stealth_error : SendError

pub data SendOutcome : Type 0 where
  refused : SendError → SendOutcome
  cancelled : SendOutcome
  broadcast : Bytes → SendOutcome
  failed : SendOutcome

module _ (c : Crates) (t : Codecs) where
  open t use {hex_encode}

  unfoldable pub check_address : Bytes → Result SendError (Bytes × Bytes)
  check_address to =
      if not (is_some (strip prefix to)) || ltb (length to) 50
      then err invalid_address
      else elim (parse_cx1_address c t to) [ none ↦ err undecodable_address | some keys ↦ ok keys ]

  unfoldable pub payload_for : Bytes × Bytes → ℕ → c.Scalar → Option Payload
  payload_for (spend_pub, view_pub) amount_ncip r = do
    output_keys ←
        generate_output c (record { public_spend = spend_pub; public_view = view_pub }) 0 r
    some (record {
      tx_pubkey = hex_encode output_keys.tx_pubkey;
      one_time_pubkey = hex_encode output_keys.one_time_pubkey;
      encrypted_amount = hex_encode (encrypt_amount c amount_ncip output_keys.shared_secret);
      amount_ncip = amount_ncip;
    })

  module _ (j : JsonValues) (to_string : Payload → Bytes) where
    unfoldable pub submit : Post j → Payload → SendOutcome
    submit post payload =
        elim (rpc_call j post (ascii "cipherx_sendRawTransaction")
          (j.json_str (hex_encode (to_string payload)) ∷ [])) [
            | none ↦ failed
            | some result ↦ elim (j.as_str result) [
              | none ↦ broadcast (ascii "unknown")
              | some tx_id ↦ broadcast tx_id
            ]
          ]

    unfoldable pub cmd_send : Bytes → ℕ → c.Scalar → Bool → Post j → SendOutcome
    unfolding check_address payload_for submit
    cmd_send to amount_ncip r confirmed post = elim (check_address to) [
      | err e ↦ refused e
      | ok keys ↦ if not confirmed then cancelled else elim (payload_for keys amount_ncip r) [
        | none ↦ refused stealth_error
        | some payload ↦ submit post payload
      ]
    ]
