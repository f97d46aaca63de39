-- ===== src/Wallet/Scan.antt =====
-- The scan for own outputs, the balance and the history of src/bin/wallet.rs. The cache of the scan
-- is a state that each command takes and returns.
pub mod Sums
pub mod Complete
use mathlib.Core.List.{reverse}
use cipher_x.Prelude.{
  ℕ, ◌+◌, Bool, true, false, Option, none, some, List, [], ◌∷◌, ◌++◌, Bytes, length, take, filter,
  leb, ◌==◌, if◌then◌else◌, saturating_add, add64,
}
use cipher_x.Std.Options.{◌>>=◌}
use cipher_x.Crates.{Crates}
use cipher_x.Crypto.Stealth.{scan_output}
use cipher_x.Crypto.Amount.{decrypt_amount}
use cipher_x.Wallet.Data.{WalletData, Codecs}
use cipher_x.Wallet.Mnemonic.{or_empty}
use cipher_x.Wallet.Address.{is_some}
use cipher_x.Wallet.Client.{
  or_zero, DetectedOutput, JsonValues, Post, get_chain_height, get_outputs_in_range,
}

pub record ScanState : Type 0 where
  pub last_scanned_block : ℕ
  pub detected_outputs : List DetectedOutput

unfoldable pub default_state : ScanState
default_state = record { last_scanned_block = 0; detected_outputs = [] }

module _ (c : Crates) (t : Codecs) where
  open t use {hex_decode}

  -- 32 bytes in hexadecimal.
  unfoldable pub decode_32 : Bytes → Option Bytes
  decode_32 text = do b ← hex_decode text; (if length b == 32 then some b else none)

  -- The bytes of the output's secret if it belongs to the keys.
  unfoldable pub secret_of : Bytes → Bytes → DetectedOutput → Option Bytes
  unfolding decode_32
  secret_of view_key spend_pubkey o = do
    tx_pk ← decode_32 o.tx_pubkey
    ot_pk ← decode_32 o.one_time_pubkey
    scan_output c tx_pk ot_pk o.output_index view_key spend_pubkey

  unfoldable pub own_outputs :
      Option Bytes → Option Bytes → List DetectedOutput → List DetectedOutput
  unfolding secret_of
  own_outputs (some view_key) (some spend_pubkey) outputs =
      filter (λ o. is_some (secret_of view_key spend_pubkey o)) outputs
  own_outputs _ _ outputs = []

  -- The amount of an own output; `none` where it is not counted.
  unfoldable pub amount_of : Bytes → Bytes → DetectedOutput → Option ℕ
  unfolding secret_of
  amount_of view_key spend_pubkey o = do
    s_i_bytes ← secret_of view_key spend_pubkey o
    s_i ← c.scalar_from_canonical s_i_bytes
    some (or_zero (decrypt_amount c (or_empty (hex_decode o.encrypted_amount)) s_i))

  unfoldable pub total_of : Bytes → Bytes → ℕ → List DetectedOutput → ℕ
  total_of view_key spend_pubkey total [] = total
  total_of view_key spend_pubkey total (o ∷ os) =
      total_of view_key spend_pubkey
        (elim (amount_of view_key spend_pubkey o) [
          | none ↦ total
          | some amount ↦ saturating_add total amount
        ])
        os

  unfoldable pub total_ncip : WalletData → List DetectedOutput → ℕ
  unfolding total_of decode_32
  total_ncip wallet outputs = elim (decode_32 wallet.private_view) [
    | none ↦ 0
    | some view_key ↦ elim (decode_32 wallet.public_spend) [
      | none ↦ 0
      | some spend_pubkey ↦ total_of view_key spend_pubkey 0 outputs
    ]
  ]

  module _ (j : JsonValues) where
    unfoldable pub scan_outputs : WalletData → Post j → ℕ → ℕ → List DetectedOutput
    unfolding own_outputs decode_32
    scan_outputs wallet post from_block to_block =
        own_outputs (decode_32 wallet.private_view) (decode_32 wallet.public_spend)
          (get_outputs_in_range j post from_block to_block)

    -- The scan of the blocks since the last one, up to `height`.
    unfoldable pub scan_to : WalletData → Post j → ℕ → ScanState → ScanState
    unfolding scan_outputs
    scan_to wallet post height st =
        let from_block = add64 st.last_scanned_block 1 in
        if leb from_block height
        then record {
          last_scanned_block = height;
          detected_outputs = st.detected_outputs ++ scan_outputs wallet post from_block height;
        }
        else st

    -- `none` where the node cannot be reached: only the cache is shown.
    unfoldable pub cmd_balance : WalletData → Post j → ScanState → ScanState × Option ℕ
    unfolding scan_to total_ncip
    cmd_balance wallet post st = elim (get_chain_height j post) [
      | none ↦ (st, none)
      | some height ↦
          let st' = scan_to wallet post height st in
          (st', some (total_ncip wallet st'.detected_outputs))
    ]

    -- The last `limit` outputs, newest first.
    unfoldable pub cmd_history :
        WalletData → Post j → ℕ → ScanState → ScanState × List DetectedOutput
    unfolding scan_to
    cmd_history wallet post limit st =
        let st' : ScanState = elim (get_chain_height j post) [
          | none ↦ st
          | some height ↦ scan_to wallet post height st
        ] in
        (st', take limit (reverse st'.detected_outputs))
