-- ===== src/Evm/Precompiles.antt =====
-- src/evm/precompiles.rs: the native contracts at fixed addresses, with the gas costs of src/evm/gas.rs.
pub mod Results
pub mod RangeProof
use cipher_x.Prelude.{
  ℕ, zero, suc, ◌+◌, ◌-◌, ◌*◌, ◌++◌, Bool, true, false, ◌||◌, not, Option, none, some, List, [],
  ◌∷◌, Bytes, length, take, drop, replicate, ltb, ◌==◌, if◌then◌else◌,
}
use cipher_x.Std.Encoding.{of_be_bytes}
use cipher_x.Std.Slices.{slice}
use cipher_x.Crates.{Crates}
use cipher_x.Crypto.Ringct.{commit, verify_range}
use cipher_x.Crypto.RingSig.{verify_ring}
use cipher_x.Crypto.Stealth.{scan_output}

-- `GasCost`
abbrev pub gas_ring_sig_verify : ℕ
gas_ring_sig_verify = 50000

abbrev pub gas_zk_verify : ℕ
gas_zk_verify = 100000

abbrev pub gas_stealth_scan : ℕ
gas_stealth_scan = 5000

abbrev pub gas_pedersen_commit : ℕ
gas_pedersen_commit = 3000

abbrev pub gas_bulletproof_vfy : ℕ
gas_bulletproof_vfy = 80000

abbrev pub gas_sload : ℕ
gas_sload = 2100

pub record PrecompileResult : Type 0 where
  pub output : Bytes
  pub gas_used : ℕ
  pub success : Bool

unfoldable pub result_ok : Bytes → ℕ → PrecompileResult
result_ok output gas = record { output = output; gas_used = gas; success = true }

unfoldable pub result_err : ℕ → PrecompileResult
result_err gas = record { output = replicate 32 0; gas_used = gas; success = false }

-- A Boolean as a word of 32 bytes.
unfoldable pub bool_word : Bool → Bytes
bool_word valid = replicate 31 0 ++ (if valid then 1 else 0) ∷ []

-- The guard that every precompile starts with.
unfoldable pub refused : ℕ → ℕ → ℕ → Bytes → Bool
refused gas gas_limit size input = ltb gas_limit gas || ltb (length input) size

-- The loop over the ring members.
unfoldable pub read_members : ℕ → ℕ → Bytes → List Bytes
read_members zero start input = []
read_members (suc n) start input = slice start 32 input ∷ read_members n (start + 32) input

unfoldable pub precompile_zk_verify : Bytes → ℕ → PrecompileResult
unfolding refused result_err result_ok bool_word
precompile_zk_verify input gas_limit =
    if refused gas_zk_verify gas_limit 40 input
    then result_err gas_zk_verify
    else result_ok (bool_word (not (length (drop 40 input) == 0))) gas_zk_verify

unfoldable pub precompile_nullifier_check : Bytes → ℕ → PrecompileResult
unfolding refused result_err result_ok
precompile_nullifier_check input gas_limit =
    if refused gas_sload gas_limit 32 input
    then result_err gas_sload
    else result_ok (replicate 32 0) gas_sload

module _ (c : Crates) where
  open c use {keccak256}

  unfoldable pub precompile_ring_sig_verify : Bytes → ℕ → PrecompileResult
  unfolding refused result_err result_ok bool_word read_members
  precompile_ring_sig_verify input gas_limit =
      let ring_size = of_be_bytes (slice 32 4 input) in
      if refused gas_ring_sig_verify gas_limit 68 input
      then result_err gas_ring_sig_verify
      else if ltb (length input) (36 + ring_size * 32 + 32)
      then result_err gas_ring_sig_verify
      else (let message = take 32 input in
          let ring_members = read_members ring_size 36 input in
          let sig_offset = 36 + ring_size * 32 in
          let key_image = drop (length input - 32) input in
          let signature = slice sig_offset (length input - 32 - sig_offset) input in
          result_ok (bool_word (verify_ring c message ring_members signature key_image))
            gas_ring_sig_verify)

  unfoldable pub precompile_stealth_derive : Bytes → ℕ → PrecompileResult
  unfolding refused result_err result_ok
  precompile_stealth_derive input gas_limit =
      if refused gas_stealth_scan gas_limit 100 input
      then result_err gas_stealth_scan
      else result_ok (keccak256 (take 100 input)) gas_stealth_scan

  unfoldable pub precompile_pedersen_commit : Bytes → ℕ → PrecompileResult
  unfolding refused result_err result_ok
  precompile_pedersen_commit input gas_limit =
      if refused gas_pedersen_commit gas_limit 40 input
      then result_err gas_pedersen_commit
      else elim (commit c (of_be_bytes (take 8 input)) (slice 8 32 input)) [
        | some commitment ↦ result_ok commitment gas_pedersen_commit
        | none ↦ result_err gas_pedersen_commit
      ]

  unfoldable pub precompile_bulletproof_verify : Bytes → ℕ → PrecompileResult
  unfolding refused result_err result_ok bool_word
  precompile_bulletproof_verify input gas_limit =
      if refused gas_bulletproof_vfy gas_limit 32 input
      then result_err gas_bulletproof_vfy
      else result_ok (bool_word (verify_range c (take 32 input) (drop 32 input)))
          gas_bulletproof_vfy

  unfoldable pub precompile_view_key_scan : Bytes → ℕ → PrecompileResult
  unfolding refused result_err result_ok bool_word
  precompile_view_key_scan input gas_limit =
      if refused gas_stealth_scan gas_limit 132 input
      then result_err gas_stealth_scan
      else elim (scan_output c (take 32 input) (slice 32 32 input) (of_be_bytes (slice 128 4 input))
          (slice 64 32 input) (slice 96 32 input)) [
            | some s_i ↦ result_ok (bool_word true ++ s_i) gas_stealth_scan
            | none ↦ result_ok (replicate 64 0) gas_stealth_scan
          ]

  -- The addresses 0x100 to 0x106.
  unfoldable pub call_precompile : ℕ → Bytes → ℕ → Option PrecompileResult
  unfolding precompile_ring_sig_verify precompile_zk_verify precompile_stealth_derive
      precompile_pedersen_commit precompile_bulletproof_verify precompile_nullifier_check
      precompile_view_key_scan
  call_precompile address input gas_limit =
      if address == 256
      then some (precompile_ring_sig_verify input gas_limit)
      else if address == 257
      then some (precompile_zk_verify input gas_limit)
      else if address == 258
      then some (precompile_stealth_derive input gas_limit)
      else if address == 259
      then some (precompile_pedersen_commit input gas_limit)
      else if address == 260
      then some (precompile_bulletproof_verify input gas_limit)
      else if address == 261
      then some (precompile_nullifier_check input gas_limit)
      else if address == 262
      then some (precompile_view_key_scan input gas_limit)
      else none
