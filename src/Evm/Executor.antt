-- ===== src/Evm/Executor.antt =====
-- src/evm/executor.rs: `CipherXEvm`, its deployments and calls. Errors are without their texts, and
-- logging is left out.
pub mod Refinement
pub mod Calls
use cipher_x.Prelude.{
  ℕ, ◌==◌, Bool, true, false, Option, none, some, List, [], map, Bytes, Bytes-discrete, length, ltb,
  if◌then◌else◌, add64, mul64,
}
use cipher_x.Std.HashMap.{HashMap, empty}
use cipher_x.Std.HashMap
use cipher_x.Std.Result.{Result, ok, err}
use cipher_x.Crates.{Crates}
use cipher_x.Evm.Contract.{ContractAddress, Contract, ContractStorage, StorageSlot}
use cipher_x.Evm.Contract

pub record PrivateCall : Type 0 where
  pub to : ContractAddress
  pub encrypted_calldata : Bytes
  pub gas_limit : ℕ
  pub value_commitment : Bytes
  pub caller_nullifier : Bytes
  pub balance_proof : Bytes

pub record EncryptedEvent : Type 0 where
  pub topic : Bytes
  pub encrypted_data : Bytes
  pub recipient_pubkey : Bytes

pub data ExecutionError : Type 0 where
  out_of_gas revert invalid_bytecode stack_overflow invalid_jump : ExecutionError
  contract_not_found insufficient_gas : ExecutionError

pub record ExecutionResult : Type 0 where
  pub success : Bool
  pub gas_used : ℕ
  pub encrypted_output : Bytes
  pub storage_changes : List StorageSlot
  pub encrypted_events : List EncryptedEvent
  pub error : Option ExecutionError

pub record RawExecResult : Type 0 where
  pub success : Bool
  pub gas_used : ℕ
  pub raw_output : Bytes
  pub storage_changes : List (Bytes × Bytes)
  pub error : Option ExecutionError

pub record DeployResult : Type 0 where
  pub address : ContractAddress
  pub code_hash : Bytes
  pub encryption_pubkey : Bytes
  pub gas_used : ℕ

pub record CipherXEvm : Type 0 where
  pub contracts : HashMap ContractAddress Contract
  pub block_height : ℕ
  pub block_timestamp : ℕ
  pub base_gas_price : ℕ

unfoldable pub new : ℕ → ℕ → CipherXEvm
new block_height block_timestamp = record {
  contracts = empty;
  block_height = block_height;
  block_timestamp = block_timestamp;
  base_gas_price = 1000;
}

unfoldable pub estimate_deploy_gas : Bytes → ℕ
estimate_deploy_gas bytecode = add64 53000 (mul64 (length bytecode) 200)

unfoldable pub estimate_call_gas : Bytes → ℕ
estimate_call_gas calldata = add64 21000 (mul64 (length calldata) 16)

unfoldable pub gas_to_ncip : ℕ → CipherXEvm → ℕ
gas_to_ncip gas evm = mul64 gas evm.base_gas_price

unfoldable pub get_contract : ContractAddress → CipherXEvm → Option Contract
get_contract addr evm = HashMap.get Bytes-discrete addr evm.contracts

unfoldable pub contract_count : CipherXEvm → ℕ
contract_count evm = HashMap.len evm.contracts

unfoldable pub advance_block : ℕ → ℕ → CipherXEvm → CipherXEvm
advance_block height timestamp evm = record evm {
  block_height = height;
  block_timestamp = timestamp;
}

-- The stub of an interpreter: it echoes the calldata.
unfoldable pub execute_bytecode : Bytes → Bytes → ℕ → ContractStorage → RawExecResult
execute_bytecode bytecode calldata gas_limit storage =
    let gas_used = add64 21000 (mul64 (length calldata) 16) in
    let failed : ℕ → ExecutionError → RawExecResult = λ gas e. record {
      success = false;
      gas_used = gas;
      raw_output = [];
      storage_changes = [];
      error = some e;
    } in
    if length bytecode == 0
    then failed 21000 invalid_bytecode
    else if ltb gas_limit gas_used
    then failed gas_limit out_of_gas
    else (record {
      success = true;
      gas_used = gas_used;
      raw_output = calldata;
      storage_changes = [];
      error = none;
    })

unfoldable pub decrypt_calldata : Bytes → Bytes → Bytes
decrypt_calldata encrypted contract_key = encrypted

unfoldable pub encrypt_output : Bytes → Bytes → Bytes
encrypt_output dat recipient_key = dat

-- The result for an unknown contract.
unfoldable pub not_found : ExecutionResult
not_found = record {
  success = false;
  gas_used = 0;
  encrypted_output = [];
  storage_changes = [];
  encrypted_events = [];
  error = some contract_not_found;
}

unfoldable pub static_call : ContractAddress → Bytes → ℕ → CipherXEvm → ExecutionResult
unfolding get_contract not_found execute_bytecode
static_call to calldata gas_limit evm = elim (get_contract to evm) [
  | none ↦ not_found
  | some contract ↦
      let exec = execute_bytecode contract.bytecode calldata gas_limit contract.storage in
      record {
        success = exec.success;
        gas_used = exec.gas_used;
        encrypted_output = exec.raw_output;
        storage_changes = [];
        encrypted_events = [];
        error = exec.error;
      }
]

module _ (c : Crates) where
  open c use {keccak256}

  unfoldable pub encrypt_storage_changes : List (Bytes × Bytes) → Bytes → List StorageSlot
  encrypt_storage_changes changes contract_key =
      map (λ kv. record { key = kv.0; encrypted_value = kv.1; value_commitment = keccak256 kv.1 })
        changes

  unfoldable pub caller_key : PrivateCall → Bytes
  caller_key call = keccak256 call.caller_nullifier

  -- Takes `&mut self` and changes nothing of it.
  unfoldable pub call : PrivateCall → CipherXEvm → CipherXEvm × ExecutionResult
  unfolding get_contract not_found execute_bytecode decrypt_calldata encrypt_output
      encrypt_storage_changes caller_key
  call msg evm = elim (get_contract msg.to evm) [
    | none ↦ (evm, not_found)
    | some contract ↦
        let calldata = decrypt_calldata msg.encrypted_calldata contract.encryption_pubkey in
        let exec = execute_bytecode contract.bytecode calldata msg.gas_limit contract.storage in
        (
          evm,
          record {
            success = exec.success;
            gas_used = exec.gas_used;
            encrypted_output = encrypt_output exec.raw_output (caller_key msg);
            storage_changes =
                encrypt_storage_changes exec.storage_changes contract.encryption_pubkey;
            encrypted_events = [];
            error = exec.error;
          },
        )
  ]

  unfoldable pub deploy :
      Bytes → Bytes → ℕ → Bytes → ℕ → CipherXEvm → CipherXEvm × Result ExecutionError DeployResult
  unfolding estimate_deploy_gas
  deploy bytecode deployer_nullifier deployer_nonce constructor_args gas_limit evm =
      if length bytecode == 0
      then (evm, err invalid_bytecode)
      else if ltb gas_limit (estimate_deploy_gas bytecode)
      then (evm, err out_of_gas)
      else (let contract =
            Contract.new c bytecode deployer_nullifier deployer_nonce evm.block_height in
          (
            record evm {
              contracts = HashMap.insert Bytes-discrete contract.address contract evm.contracts;
            },
            ok (record {
              address = contract.address;
              code_hash = contract.code_hash;
              encryption_pubkey = contract.encryption_pubkey;
              gas_used = estimate_deploy_gas bytecode;
            }),
          ))
