-- ===== src/Tests/Contracts.antt =====
-- Runs of the contract executor and of the precompiles.
use cipher_x.Prelude.{
  ℕ, ◌≡◌, ◌≤◌, ◌<◌, ◌⊎◌, ◌++◌, refl, true, false, none, some, [], ◌∷◌, Bytes, List, arith,
  replicate,
}
use cipher_x.Std.Encoding.{be_bytes}
use cipher_x.Core.Types.{PedersenCommitment, Bulletproof}
use cipher_x.Crypto.Ringct.Prove.{Nonces, prove_range}
use cipher_x.Evm.Contract.{Contract}
use cipher_x.Evm.Executor.{
  PrivateCall, out_of_gas, new, estimate_call_gas, get_contract, not_found, static_call, call,
}
use cipher_x.Evm.Executor.Refinement.{
  Deployment, Event, deploying, calling, advancing, run, last_deployed, get_contract-run,
}
use cipher_x.Evm.Executor.Calls.{call-run}
use cipher_x.Evm.Precompiles.{
  PrecompileResult, call_precompile, result_ok, bool_word, gas_pedersen_commit, gas_bulletproof_vfy,
}
use cipher_x.Evm.Precompiles.Results.{call_precompile-cases}
use cipher_x.Evm.Precompiles.RangeProof.{call_precompile-prove_range}
use cipher_x.Tests.Field.{F3, i, t, encode, field, field-GroupLaws}
use cipher_x.Tests.Toy.{toy}

abbrev contract_code : Bytes
contract_code = 96 ∷ 66 ∷ 243 ∷ []

abbrev deployment : Deployment
deployment = record {
  bytecode = contract_code;
  deployer_nullifier = replicate 32 9;
  deployer_nonce = 0;
  constructor_args = [];
  gas_limit = 60000;
}

abbrev message_to : Bytes → PrivateCall
message_to address = record {
  to = address;
  encrypted_calldata = 1 ∷ 2 ∷ 3 ∷ [];
  gas_limit = 30000;
  value_commitment = [];
  caller_nullifier = [];
  balance_proof = [];
}

abbrev some_address : Bytes
some_address = replicate 20 7

abbrev events : List Event
events =
    deploying deployment
    ∷ advancing 8 1000
    ∷ calling (message_to some_address)
    ∷ deploying deployment
    ∷ []

get_contract-run_example :
    get_contract some_address (run toy events (new 3 900))
    ≡ last_deployed toy some_address events 3 none
get_contract-run_example = get_contract-run toy events 3 900 some_address

call-run_example :
    (call toy (message_to some_address) (run toy events (new 3 900)) ≡ (
      run toy events (new 3 900),
      static_call some_address (1 ∷ 2 ∷ 3 ∷ []) 30000 (run toy events (new 3 900)),
    ))
    × (get_contract some_address (run toy events (new 3 900)) ≡ none
        → static_call some_address (1 ∷ 2 ∷ 3 ∷ []) 30000 (run toy events (new 3 900)) ≡ not_found)
    × ((k : Contract)
        → get_contract some_address (run toy events (new 3 900)) ≡ some k
        → (30000 < estimate_call_gas (1 ∷ 2 ∷ 3 ∷ [])
            → ((static_call some_address
                  (1 ∷ 2 ∷ 3 ∷ [])
                  30000
                  (run toy events (new 3 900))).success
                ≡ false)
              × ((static_call some_address
                    (1 ∷ 2 ∷ 3 ∷ [])
                    30000
                    (run toy events (new 3 900))).error
                  ≡ some out_of_gas)
              × ((static_call some_address
                    (1 ∷ 2 ∷ 3 ∷ [])
                    30000
                    (run toy events (new 3 900))).gas_used
                  ≡ 30000)
              × ((static_call some_address
                    (1 ∷ 2 ∷ 3 ∷ [])
                    30000
                    (run toy events (new 3 900))).encrypted_output
                  ≡ []))
          × (estimate_call_gas (1 ∷ 2 ∷ 3 ∷ []) ≤ 30000
              → ((static_call some_address
                    (1 ∷ 2 ∷ 3 ∷ [])
                    30000
                    (run toy events (new 3 900))).success
                  ≡ true)
                × ((static_call some_address
                      (1 ∷ 2 ∷ 3 ∷ [])
                      30000
                      (run toy events (new 3 900))).error
                    ≡ none)
                × ((static_call some_address
                      (1 ∷ 2 ∷ 3 ∷ [])
                      30000
                      (run toy events (new 3 900))).gas_used
                    ≡ estimate_call_gas (1 ∷ 2 ∷ 3 ∷ []))
                × ((static_call some_address
                      (1 ∷ 2 ∷ 3 ∷ [])
                      30000
                      (run toy events (new 3 900))).encrypted_output
                    ≡ 1 ∷ 2 ∷ 3 ∷ [])))
call-run_example = call-run toy events 3 900 (message_to some_address)

call_precompile-cases_example :
    (256 ≤ 257
      → 257 ≤ 262
      → (r : PrecompileResult) × (call_precompile toy 257 (replicate 41 1) 100000 ≡ some r)
        × (r.success ≡ true → r.gas_used ≤ 100000)
        × (r.success ≡ false → r.output ≡ replicate 32 0))
    × ((257 < 256) ⊎ (262 < 257) → call_precompile toy 257 (replicate 41 1) 100000 ≡ none)
call_precompile-cases_example = call_precompile-cases toy 257 (replicate 41 1) 100000

abbrev fixed_nonces : ℕ → Nonces field
fixed_nonces n = record { k = i; e = t; s = t }

abbrev always_one : ℕ → F3
always_one n = i

call_precompile-prove_range_example :
    (commitment : PedersenCommitment) × (proof : Bulletproof) × (call_precompile field 259
        (be_bytes 8 500 ++ encode t)
        3000
      ≡ some (result_ok commitment gas_pedersen_commit))
    × (prove_range field 500 (encode t) always_one fixed_nonces ≡ some proof)
    × (call_precompile field 260 (commitment ++ proof) 90000
        ≡ some (result_ok (bool_word true) gas_bulletproof_vfy))
call_precompile-prove_range_example =
    call_precompile-prove_range field-GroupLaws (λ b. refl) 500 3000 90000 t always_one fixed_nonces
      (omega arith) (omega arith) (omega arith)
