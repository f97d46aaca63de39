-- ===== src/Evm/Executor/Calls.antt =====
-- Deployments and calls of src/evm/executor.rs on an executor with any history.
use cipher_x.Prelude.{
  ℕ, ◌≡◌, ◌≤◌, ◌<◌, refl, sym, subst, ◌∙◌, Option, none, some, ite, List, [], ◌∷◌, Bytes,
  Bytes-discrete, length, arith, Bool, true, false, ◌==◌, ltb, if◌then◌else◌, Bool-cases,
  Option-cases, inl, inr, add64, mul64,
}
use cipher_x.Std.HashMap.{get-insert_self}
use cipher_x.Std.Result.{ok, err}
use cipher_x.Crates.{Crates}
use cipher_x.Evm.Contract.{ContractAddress, Contract}
use cipher_x.Evm.Contract
use cipher_x.Evm.Executor.{
  CipherXEvm, PrivateCall, ExecutionError, DeployResult, invalid_bytecode, out_of_gas, new,
  estimate_deploy_gas, estimate_call_gas, get_contract, execute_bytecode, not_found,
  decrypt_calldata, encrypt_output, encrypt_storage_changes, static_call, call, deploy,
}
use cipher_x.Evm.Executor.Refinement.{
  Deployment, Event, deploying, calling, advancing, accepted, run, last_deployed, get_contract-run,
}

-- There is code, where there is a contract.
abbrev Coded : Option Contract → Type 0
Coded none = Unit
Coded (some k) = (length k.bytecode == 0) ≡ false

Coded-chosen :
    {P : Type 0}
    → (b : Bool) (d : Dec P) (k : Contract) (current : Option Contract)
    → (b ≡ true → (length k.bytecode == 0) ≡ false)
    → Coded current
    → Coded (if b then ite d (some k) current else current)
Coded-chosen true (yes _) k current h old = h refl
Coded-chosen true (no _) k current h old = old
Coded-chosen false d k current h old = old

accepted_code : (d : Deployment) → accepted d ≡ true → (length d.bytecode == 0) ≡ false
unfolding accepted
accepted_code d h = ground arith

ltb→ge : (a b : ℕ) → ltb a b ≡ false → b ≤ a
ltb→ge a b h = ground arith

module _ (c : Crates) where
  last_deployed-Coded :
      (addr : ContractAddress) (es : List Event) (height : ℕ) (current : Option Contract)
      → Coded current
      → Coded (last_deployed c addr es height current)
  unfolding last_deployed accepted Contract.new
  last_deployed-Coded addr [] height current h = h
  last_deployed-Coded addr (deploying d ∷ es) height current h =
      last_deployed-Coded addr es height _ (
        Coded-chosen (accepted d) _
          (Contract.new c d.bytecode d.deployer_nullifier d.deployer_nonce height) current
          (accepted_code d) h)
  last_deployed-Coded addr (calling m ∷ es) height current h =
      last_deployed-Coded addr es height current h
  last_deployed-Coded addr (advancing height' t ∷ es) height current h =
      last_deployed-Coded addr es height' current h

  -- The result for a contract with code.
  static_call_coded :
      (to : ContractAddress) (calldata : Bytes) (gas_limit : ℕ) (evm : CipherXEvm) (k : Contract)
      → get_contract to evm ≡ some k
      → (length k.bytecode == 0) ≡ false
      → let r = static_call to calldata gas_limit evm in
        (gas_limit < estimate_call_gas calldata
          → (r.success ≡ false)
            × (r.error ≡ some out_of_gas)
            × (r.gas_used ≡ gas_limit)
            × (r.encrypted_output ≡ []))
        × (estimate_call_gas calldata ≤ gas_limit
            → (r.success ≡ true)
              × (r.error ≡ none)
              × (r.gas_used ≡ estimate_call_gas calldata)
              × (r.encrypted_output ≡ calldata))
  unfolding static_call execute_bytecode estimate_call_gas
  static_call_coded to calldata gas_limit evm k e coded =
      rw (static_call, e, execute_bytecode, coded) (ground arith)

  no_changes :
      (bytecode calldata : Bytes) (gas_limit : ℕ) (storage : Contract.ContractStorage)
      → (execute_bytecode bytecode calldata gas_limit storage).storage_changes ≡ []
  unfolding execute_bytecode
  no_changes bytecode calldata gas_limit storage = elim (Bool-cases (length bytecode == 0)) [
    | inl e ↦ rw (execute_bytecode, e) refl
    | inr e ↦ elim (Bool-cases (ltb gas_limit (add64 21000 (mul64 (length calldata) 16)))) [
      | inl f ↦ rw (execute_bytecode, e, f) refl
      | inr f ↦ rw (execute_bytecode, e, f) refl
    ]
  ]

  call-static_call :
      (m : PrivateCall) (evm : CipherXEvm)
      → (call c m evm ≡ (evm, static_call m.to m.encrypted_calldata m.gas_limit evm))
  unfolding call static_call encrypt_output decrypt_calldata encrypt_storage_changes
  call-static_call m evm = elim (Option-cases (get_contract m.to evm)) [
    | inl e ↦ rw (call, static_call, e) refl
    | inr (k, e) ↦
        rw (call, static_call, e, no_changes k.bytecode m.encrypted_calldata m.gas_limit k.storage)
          refl
  ]

  static_call_missing :
      (to : ContractAddress) (calldata : Bytes) (gas_limit : ℕ) (evm : CipherXEvm)
      → get_contract to evm ≡ none
      → static_call to calldata gas_limit evm ≡ not_found
  unfolding static_call
  static_call_missing to calldata gas_limit evm e = rw (static_call, e) refl

  -- After any deployments, calls and changes of the block, `call` leaves the executor as it was and
  -- returns what `static_call` does with the same calldata. Without a contract at the address that
  -- is the result for an unknown contract. Otherwise a gas limit below the estimated cost is an
  -- out-of-gas error that uses up the limit, and any other call succeeds, costs what was estimated
  -- and returns its calldata.
  pub call-run :
      (es : List Event) (height timestamp : ℕ) (m : PrivateCall)
      → let evm = run c es (new height timestamp) in
        let r = static_call m.to m.encrypted_calldata m.gas_limit evm in
        (call c m evm ≡ (evm, r))
        × (get_contract m.to evm ≡ none → r ≡ not_found)
        × ((k : Contract)
            → get_contract m.to evm ≡ some k
            → (m.gas_limit < estimate_call_gas m.encrypted_calldata
                → (r.success ≡ false)
                  × (r.error ≡ some out_of_gas)
                  × (r.gas_used ≡ m.gas_limit)
                  × (r.encrypted_output ≡ []))
              × (estimate_call_gas m.encrypted_calldata ≤ m.gas_limit
                  → (r.success ≡ true)
                    × (r.error ≡ none)
                    × (r.gas_used ≡ estimate_call_gas m.encrypted_calldata)
                    × (r.encrypted_output ≡ m.encrypted_calldata)))
  call-run es height timestamp m =
      let evm = run c es (new height timestamp) in
      (
        call-static_call m evm,
        static_call_missing m.to m.encrypted_calldata m.gas_limit evm,
        λ k e. static_call_coded m.to m.encrypted_calldata m.gas_limit evm k e (
            subst Coded (sym (get_contract-run c es height timestamp m.to) ∙ e)
              (last_deployed-Coded m.to es height none tt)),
      )

  -- `deploy` returns an error, and leaves the executor as it was, unless there is code and the gas
  -- limit covers the estimated cost. Then it returns the hash of the code, the estimated cost, and
  -- an address where the contract with that code stands afterwards, in place of any that stood there.
  pub deploy-get_contract :
      (d : Deployment) (evm : CipherXEvm)
      → let (evm', r) =
          deploy c d.bytecode d.deployer_nullifier d.deployer_nonce d.constructor_args d.gas_limit
            evm in
        (accepted d ≡ false → (evm' ≡ evm) × ((e : ExecutionError) × (r ≡ err e)))
        × (accepted d ≡ true
            → (result : DeployResult) × (k : Contract) × (r ≡ ok result)
              × (result.gas_used ≤ d.gas_limit)
              × (get_contract result.address evm' ≡ some k)
              × (k.bytecode ≡ d.bytecode)
              × (k.deployed_at ≡ evm.block_height)
              × (result.code_hash ≡ c.keccak256 k.bytecode))
  unfolding deploy accepted get_contract Contract.new
  deploy-get_contract d evm =
      let k = Contract.new c d.bytecode d.deployer_nullifier d.deployer_nonce evm.block_height in
      let result : DeployResult = record {
        address = k.address;
        code_hash = k.code_hash;
        encryption_pubkey = k.encryption_pubkey;
        gas_used = estimate_deploy_gas d.bytecode;
      } in
      elim (Bool-cases (length d.bytecode == 0)) [
        | inl e ↦
            rw (deploy, accepted, e)
              (λ h. (refl, (invalid_bytecode, refl)), λ h. absurd (ground arith))
        | inr e ↦ elim (Bool-cases (ltb d.gas_limit (estimate_deploy_gas d.bytecode))) [
          | inl f ↦
              rw (deploy, accepted, e, f)
                (λ h. (refl, (out_of_gas, refl)), λ h. absurd (ground arith))
          | inr f ↦
              rw (deploy, accepted, e, f)
                (
                  λ h. absurd (ground arith),
                  λ h. (
                    result,
                    k,
                    refl,
                    ltb→ge _ _ f,
                    get-insert_self Bytes-discrete k.address k evm.contracts,
                    refl,
                    refl,
                    refl,
                  ),
                )
        ]
      ]
