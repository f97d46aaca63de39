-- ===== src/Evm/Contract.antt =====
-- src/evm/executor.rs: contract addresses, storage and contracts.
use cipher_x.Prelude.{ℕ, true, ◌∷◌, [], ◌++◌, Option, Bool, Bytes, Bytes-discrete, drop, replicate}
use cipher_x.Std.Encoding.{le_bytes, ascii}
use cipher_x.Std.HashMap.{HashMap, empty}
use cipher_x.Std.HashMap
use cipher_x.Crates.{Crates}

abbrev pub ContractAddress : Type 0
ContractAddress = Bytes

pub record StorageSlot : Type 0 where
  pub key : Bytes
  pub encrypted_value : Bytes
  pub value_commitment : Bytes

pub record ContractStorage : Type 0 where
  pub slots : HashMap Bytes StorageSlot

unfoldable pub get_slot : Bytes → ContractStorage → Option StorageSlot
get_slot key s = HashMap.get Bytes-discrete key s.slots

unfoldable pub insert_slot : StorageSlot → ContractStorage → ContractStorage
insert_slot slot s = record { slots = HashMap.insert Bytes-discrete slot.key slot s.slots }

unfoldable pub slot_count : ContractStorage → ℕ
slot_count s = HashMap.len s.slots

pub record Contract : Type 0 where
  pub address : ContractAddress
  pub bytecode : Bytes
  pub code_hash : Bytes
  pub encryption_pubkey : Bytes
  pub deployed_at : ℕ
  pub deployer_nullifier : Bytes
  pub abi_hash : Bytes
  pub destructible : Bool
  pub storage : ContractStorage
  pub balance_commitment : Bytes
  pub nonce : ℕ

module _ (c : Crates) where
  open c use {keccak256}

  unfoldable pub from_deployer : Bytes → ℕ → ContractAddress
  from_deployer deployer nonce =
      drop 12 (keccak256 (ascii "CipherX_CREATE" ++ (deployer ++ le_bytes 8 nonce)))

  unfoldable pub from_create2 : Bytes → Bytes → Bytes → ContractAddress
  from_create2 deployer salt code_hash =
      drop 12 (keccak256 ((255 ∷ []) ++ (deployer ++ (salt ++ code_hash))))

  unfoldable pub new : Bytes → Bytes → ℕ → ℕ → Contract
  unfolding from_deployer
  new bytecode deployer_nullifier deployer_nonce deployed_at =
      let address = from_deployer deployer_nullifier deployer_nonce in
      record {
        address = address;
        bytecode = bytecode;
        code_hash = keccak256 bytecode;
        encryption_pubkey =
            keccak256 (ascii "CipherX_contract_enc_key" ++ (address ++ le_bytes 8 deployed_at));
        deployed_at = deployed_at;
        deployer_nullifier = deployer_nullifier;
        abi_hash = replicate 32 0;
        destructible = true;
        storage = record { slots = empty };
        balance_commitment = replicate 32 0;
        nonce = 0;
      }
