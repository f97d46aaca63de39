-- ===== src/Evm/Executor/Refinement.antt =====
-- The executor of src/evm/executor.rs against a history of deployments.
use cipher_x.Prelude.{
  ℕ, ◌≡◌, refl, ap, ◌∙◌, Option, none, some, ite, List, [], ◌∷◌, Bytes, Bytes-discrete, length,
  Bool, ◌==◌, ltb, if◌then◌else◌, Bool-cases, Option-cases, inl, inr, not, ◌&&◌,
}
use cipher_x.Std.HashMap.{get-insert, get-empty}
use cipher_x.Crates.{Crates}
use cipher_x.Evm.Contract.{ContractAddress, Contract}
use cipher_x.Evm.Contract
use cipher_x.Evm.Executor.{
  CipherXEvm, PrivateCall, new, estimate_deploy_gas, get_contract, advance_block, call, deploy,
}

pub record Deployment : Type 0 where
  pub bytecode : Bytes
  pub deployer_nullifier : Bytes
  pub deployer_nonce : ℕ
  pub constructor_args : Bytes
  pub gas_limit : ℕ

-- What can happen to an executor.
pub data Event : Type 0 where
  deploying : Deployment → Event
  calling : PrivateCall → Event
  advancing : ℕ → ℕ → Event

-- A deployment that the executor accepts: there is code, and the gas limit covers its cost.
unfoldable pub accepted : Deployment → Bool
unfolding estimate_deploy_gas
accepted d = not (length d.bytecode == 0) && not (ltb d.gas_limit (estimate_deploy_gas d.bytecode))

module _ (c : Crates) where
  unfoldable pub step : Event → CipherXEvm → CipherXEvm
  unfolding deploy call advance_block
  step (deploying d) evm =
      (deploy c d.bytecode d.deployer_nullifier d.deployer_nonce d.constructor_args d.gas_limit
        evm).0
  step (calling m) evm = (call c m evm).0
  step (advancing height timestamp) evm = advance_block height timestamp evm

  unfoldable pub run : List Event → CipherXEvm → CipherXEvm
  unfolding step
  run [] evm = evm
  run (e ∷ es) evm = run es (step e evm)

  -- The abstract view: the contract of the last accepted deployment to the address, made at the
  -- height of that moment.
  unfoldable pub last_deployed :
      ContractAddress → List Event → ℕ → Option Contract → Option Contract
  unfolding accepted
  last_deployed addr [] height current = current
  last_deployed addr (deploying d ∷ es) height current =
      let contract = Contract.new c d.bytecode d.deployer_nullifier d.deployer_nonce height in
      last_deployed addr es height (
        if accepted d
        then ite (Bytes-discrete contract.address addr) (some contract) current
        else current)
  last_deployed addr (calling m ∷ es) height current = last_deployed addr es height current
  last_deployed addr (advancing h t ∷ es) height current = last_deployed addr es h current

  get_contract-deploy :
      (d : Deployment) (evm : CipherXEvm) (addr : ContractAddress)
      → let contract =
          Contract.new c d.bytecode d.deployer_nullifier d.deployer_nonce evm.block_height in
        (get_contract addr (step (deploying d) evm) ≡ (
          if accepted d
          then ite (Bytes-discrete contract.address addr) (some contract) (get_contract addr evm)
          else get_contract addr evm))
        × ((step (deploying d) evm).block_height ≡ evm.block_height)
  unfolding step deploy accepted get_contract
  get_contract-deploy d evm addr =
      let contract =
        Contract.new c d.bytecode d.deployer_nullifier d.deployer_nonce evm.block_height in
      let looked = get-insert Bytes-discrete contract.address addr contract evm.contracts in
      elim (Bool-cases (length d.bytecode == 0)) [
        | inl e ↦ rw (step, deploy, e) (refl, refl)
        | inr e ↦ elim (Bool-cases (ltb d.gas_limit (estimate_deploy_gas d.bytecode))) [
          | inl f ↦ rw (step, deploy, e, f) (refl, refl)
          | inr f ↦ rw (step, deploy, e, f) (looked, refl)
        ]
      ]

  call_keeps : (m : PrivateCall) (evm : CipherXEvm) → step (calling m) evm ≡ evm
  unfolding step call
  call_keeps m evm = elim (Option-cases (get_contract m.to evm)) [
    | inl e ↦ rw (step, call, e) refl
    | inr (k, e) ↦ rw (step, call, e) refl
  ]

  -- After any events the executor has at an address what the history of deployments says, if it
  -- had so before.
  get_contract-run_from :
      (es : List Event) (evm : CipherXEvm) (addr : ContractAddress)
      → get_contract addr (run es evm)
        ≡ last_deployed addr es evm.block_height (get_contract addr evm)
  unfolding run last_deployed
  get_contract-run_from [] evm addr = refl
  get_contract-run_from (deploying d ∷ es) evm addr =
      let (found, height) = get_contract-deploy d evm addr in
      get_contract-run_from es (step (deploying d) evm) addr
      ∙ ap (λ h. last_deployed addr es h (get_contract addr (step (deploying d) evm))) height
      ∙ ap (last_deployed addr es evm.block_height) found
  get_contract-run_from (calling m ∷ es) evm addr =
      get_contract-run_from es (step (calling m) evm) addr ∙ rw (call_keeps m evm) refl
  get_contract-run_from (advancing h t ∷ es) evm addr =
      get_contract-run_from es (step (advancing h t) evm) addr ∙ refl

  -- After any deployments, calls and changes of the block, the contract at an address is the one of
  -- the last accepted deployment to it, made at the height of that moment, and none if there was
  -- no such deployment: calls leave no trace.
  pub get_contract-run :
      (es : List Event) (height timestamp : ℕ) (addr : ContractAddress)
      → get_contract addr (run es (new height timestamp)) ≡ last_deployed addr es height none
  unfolding new get_contract
  get_contract-run es height timestamp addr =
      get_contract-run_from es (new height timestamp) addr
      ∙ ap (last_deployed addr es height) (get-empty Bytes-discrete addr)
