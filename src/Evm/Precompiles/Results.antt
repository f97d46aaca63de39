-- ===== src/Evm/Precompiles/Results.antt =====
-- What the precompiles of src/evm/precompiles.rs return.
use cipher_x.Prelude.{
  ℕ, ◌≡◌, ◌≤◌, ◌<◌, refl, ◌⊎◌, Bool, true, false, Option, none, some, Bytes, replicate, take,
  if◌then◌else◌, ◌==◌, Bool-cases, Option-cases, inl, inr, arith,
}
use cipher_x.Std.Encoding.{of_be_bytes}
use cipher_x.Std.Slices.{slice}
use cipher_x.Crates.{Crates}
use cipher_x.Crypto.Ringct.{commit}
use cipher_x.Crypto.Stealth.{scan_output}
use cipher_x.Evm.Precompiles.{
  PrecompileResult, result_ok, result_err, refused, gas_ring_sig_verify, gas_zk_verify,
  gas_stealth_scan, gas_pedersen_commit, gas_bulletproof_vfy, gas_sload, precompile_ring_sig_verify,
  precompile_zk_verify, precompile_stealth_derive, precompile_pedersen_commit,
  precompile_bulletproof_verify, precompile_nullifier_check, precompile_view_key_scan,
  call_precompile,
}

-- Success is within the gas limit; a failure returns 32 zero bytes.
abbrev Fair : ℕ → PrecompileResult → Type 0
Fair gas_limit r =
    (r.success ≡ true → r.gas_used ≤ gas_limit) × (r.success ≡ false → r.output ≡ replicate 32 0)

result_err-Fair : (gas gas_limit : ℕ) → Fair gas_limit (result_err gas)
unfolding result_err
result_err-Fair gas gas_limit = (λ h. absurd (ground arith), λ h. refl)

result_ok-Fair :
    (output : Bytes) (gas gas_limit : ℕ) → gas ≤ gas_limit → Fair gas_limit (result_ok output gas)
unfolding result_ok
result_ok-Fair output gas gas_limit h = (λ k. h, λ k. absurd (ground arith))

-- Behind the guard of a precompile.
guarded :
    (gas gas_limit size : ℕ) (input : Bytes) (r : PrecompileResult)
    → (gas ≤ gas_limit → Fair gas_limit r)
    → Fair gas_limit (if refused gas gas_limit size input then result_err gas else r)
unfolding refused
guarded gas gas_limit size input r h = elim (Bool-cases (refused gas gas_limit size input)) [
  | inl e ↦ rw e (result_err-Fair gas gas_limit)
  | inr e ↦ rw e (h (ground arith))
]

if_Fair :
    {gas_limit : ℕ} {r s : PrecompileResult} (b : Bool)
    → Fair gas_limit r
    → Fair gas_limit s
    → Fair gas_limit (if b then r else s)
if_Fair true h k = h
if_Fair false h k = k

pick :
    (gas_limit : ℕ) (b : Bool) (r : PrecompileResult) (o : Option PrecompileResult)
    → Fair gas_limit r
    → (b ≡ false
        → (s : PrecompileResult) × (o ≡ some s)
          × (s.success ≡ true → s.gas_used ≤ gas_limit)
          × (s.success ≡ false → s.output ≡ replicate 32 0))
    → (s : PrecompileResult) × ((if b then some r else o) ≡ some s)
      × (s.success ≡ true → s.gas_used ≤ gas_limit)
      × (s.success ≡ false → s.output ≡ replicate 32 0)
pick gas_limit true r o h rest = (r, refl, h.0, h.1)
pick gas_limit false r o h rest = rest refl

skip :
    (b : Bool) (r : PrecompileResult) (o : Option PrecompileResult)
    → b ≡ false
    → o ≡ none
    → (if b then some r else o) ≡ none
skip true r o h e = absurd (ground arith)
skip false r o h e = e

precompile_zk_verify-Fair :
    (input : Bytes) (gas_limit : ℕ) → Fair gas_limit (precompile_zk_verify input gas_limit)
unfolding precompile_zk_verify
precompile_zk_verify-Fair input gas_limit =
    guarded gas_zk_verify gas_limit 40 input _ (result_ok-Fair _ gas_zk_verify gas_limit)

precompile_nullifier_check-Fair :
    (input : Bytes) (gas_limit : ℕ) → Fair gas_limit (precompile_nullifier_check input gas_limit)
unfolding precompile_nullifier_check
precompile_nullifier_check-Fair input gas_limit =
    guarded gas_sload gas_limit 32 input _ (result_ok-Fair _ gas_sload gas_limit)

module _ (c : Crates) where
  precompile_ring_sig_verify-Fair :
      (input : Bytes) (gas_limit : ℕ)
      → Fair gas_limit (precompile_ring_sig_verify c input gas_limit)
  unfolding precompile_ring_sig_verify
  precompile_ring_sig_verify-Fair input gas_limit =
      guarded gas_ring_sig_verify gas_limit 68 input _ (λ h.
        if_Fair _ (result_err-Fair gas_ring_sig_verify gas_limit)
          (result_ok-Fair _ gas_ring_sig_verify gas_limit h))

  precompile_stealth_derive-Fair :
      (input : Bytes) (gas_limit : ℕ) → Fair gas_limit (precompile_stealth_derive c input gas_limit)
  unfolding precompile_stealth_derive
  precompile_stealth_derive-Fair input gas_limit =
      guarded gas_stealth_scan gas_limit 100 input _ (result_ok-Fair _ gas_stealth_scan gas_limit)

  precompile_pedersen_commit-Fair :
      (input : Bytes) (gas_limit : ℕ)
      → Fair gas_limit (precompile_pedersen_commit c input gas_limit)
  unfolding precompile_pedersen_commit
  precompile_pedersen_commit-Fair input gas_limit =
      guarded gas_pedersen_commit gas_limit 40 input _ (λ h.
        elim (Option-cases (commit c (of_be_bytes (take 8 input)) (slice 8 32 input))) [
          | inl e ↦ rw e (result_err-Fair gas_pedersen_commit gas_limit)
          | inr (k, e) ↦ rw e (result_ok-Fair k gas_pedersen_commit gas_limit h)
        ])

  precompile_bulletproof_verify-Fair :
      (input : Bytes) (gas_limit : ℕ)
      → Fair gas_limit (precompile_bulletproof_verify c input gas_limit)
  unfolding precompile_bulletproof_verify
  precompile_bulletproof_verify-Fair input gas_limit =
      guarded gas_bulletproof_vfy gas_limit 32 input _
        (result_ok-Fair _ gas_bulletproof_vfy gas_limit)

  precompile_view_key_scan-Fair :
      (input : Bytes) (gas_limit : ℕ) → Fair gas_limit (precompile_view_key_scan c input gas_limit)
  unfolding precompile_view_key_scan
  precompile_view_key_scan-Fair input gas_limit =
      guarded gas_stealth_scan gas_limit 132 input _ (λ h.
        elim (Option-cases (
          scan_output c (take 32 input) (slice 32 32 input) (of_be_bytes (slice 128 4 input))
            (slice 64 32 input) (slice 96 32 input))) [
              | inl e ↦ rw e (result_ok-Fair _ gas_stealth_scan gas_limit h)
              | inr (k, e) ↦ rw e (result_ok-Fair _ gas_stealth_scan gas_limit h)
            ])

  -- For the addresses 0x100 to 0x106, whatever the input and the gas limit, `call_precompile`
  -- returns a result: a success used no more gas than the limit, a failure returned 32 zero bytes.
  -- For any other address there is no result.
  pub call_precompile-cases :
      (address : ℕ) (input : Bytes) (gas_limit : ℕ)
      → (256 ≤ address
          → address ≤ 262
          → (r : PrecompileResult) × (call_precompile c address input gas_limit ≡ some r)
            × (r.success ≡ true → r.gas_used ≤ gas_limit)
            × (r.success ≡ false → r.output ≡ replicate 32 0))
        × ((address < 256) ⊎ (262 < address) → call_precompile c address input gas_limit ≡ none)
  unfolding call_precompile
  call_precompile-cases address input gas_limit = (
    λ low high.
        pick gas_limit (address == 256) _ _ (precompile_ring_sig_verify-Fair input gas_limit) (λ h0.
          pick gas_limit (address == 257) _ _ (precompile_zk_verify-Fair input gas_limit) (λ h1.
            pick gas_limit (address == 258) _ _ (precompile_stealth_derive-Fair input gas_limit)
              (λ h2.
                pick gas_limit (address == 259) _ _
                  (precompile_pedersen_commit-Fair input gas_limit)
                  (λ h3.
                    pick gas_limit (address == 260) _ _
                      (precompile_bulletproof_verify-Fair input gas_limit)
                      (λ h4.
                        pick gas_limit (address == 261) _ _
                          (precompile_nullifier_check-Fair input gas_limit)
                          (λ h5.
                            pick gas_limit (address == 262) _ _
                              (precompile_view_key_scan-Fair input gas_limit)
                              (λ h6. absurd (ground arith)))))))),
    λ outside. skip (address == 256) _ _ (ground arith) (
        skip (address == 257) _ _ (ground arith) (
          skip (address == 258) _ _ (ground arith) (
            skip (address == 259) _ _ (ground arith) (
              skip (address == 260) _ _ (ground arith) (
                skip (address == 261) _ _ (ground arith)
                  (skip (address == 262) _ none (ground arith) refl)))))),
  )
