-- ===== src/Tests/Evm.antt =====
-- Words, calldata, gas and fees.
use cipher_x.Crates.{Crates}
use cipher_x.Tests.Toy.{toy}
use cipher_x.Evm.PrivateState.{keystream, encrypt_slot, decrypt_slot, decrypt_slot-encrypt_slot}
use cipher_x.Prelude.{
  none, some, All, ◌++◌, zero, suc, ℕ, ◌+◌, ◌-◌, ◌*◌, ◌/◌, ◌⊎◌, ◌≤◌, ◌<◌, ◌≡◌, refl, List, [], ◌∷◌,
  arith, Bytes, take, drop, replicate, max, u64_mod,
}
use cipher_x.Evm.Gas.{GasTracker}
use cipher_x.Core.FeeMarket.{FeeMarket, update, update_lem}
use cipher_x.Core.FeeMarket

abbrev selector : Bytes
selector = 169 ∷ 5 ∷ 156 ∷ 187 ∷ []

abbrev args : List Bytes
args = replicate 32 1 ∷ replicate 32 2 ∷ []

abbrev tracker : GasTracker
tracker = record { limit = 100; used = 60 }

abbrev unlimited : GasTracker
unlimited = record { limit = u64_mod - 1; used = u64_mod - 1 }

abbrev busy : ℕ
busy = 20_000_000

update_lem_example :
    (busy < FeeMarket.new.target_gas_per_block
      → ((update busy FeeMarket.new).base_fee_per_gas < 1_000)
        ⊎ ((FeeMarket.new.base_fee_per_gas ≡ 1)
            × ((update busy FeeMarket.new).base_fee_per_gas ≡ 1)))
    × (busy ≡ FeeMarket.new.target_gas_per_block
        → (update busy FeeMarket.new).base_fee_per_gas ≡ FeeMarket.new.base_fee_per_gas)
    × (FeeMarket.new.target_gas_per_block < busy
        → 1_000 < (update busy FeeMarket.new).base_fee_per_gas)
    × (1 ≤ (update busy FeeMarket.new).base_fee_per_gas)
    × ((update busy FeeMarket.new).base_fee_per_gas ≤ 1_000 + max (1_000 / 8) 1)
    × (1_000 ≤ (update busy FeeMarket.new).base_fee_per_gas + max (1_000 / 8) 1)
    × ((update 0 FeeMarket.new).base_fee_per_gas ≡ max (1_000 - max (1_000 / 8) 1) 1)
    × ((update (2 * FeeMarket.new.target_gas_per_block) FeeMarket.new).base_fee_per_gas
        ≡ 1_000 + max (1_000 / 8) 1)
update_lem_example =
    update_lem busy FeeMarket.new (omega arith) (omega arith) (omega arith) (omega arith)
      (omega arith)

-- A hash of 32 bytes that depends on the keys.
abbrev hashing : Crates
hashing = record toy { sha3_256 = λ b. take 32 (drop 17 b ++ replicate 32 0) }

abbrev value : Bytes
value = replicate 32 200

replicate-All : (n : ℕ) → All (λ a. a < 256) (replicate n 200)
replicate-All zero = tt
replicate-All (suc n) = (omega arith, replicate-All n)

value-All : All (λ a. a < 256) value
value-All = replicate-All 32

decrypt_slot-encrypt_slot_example :
    (decrypt_slot hashing (encrypt_slot hashing value (3 ∷ []) (4 ∷ [])) (3 ∷ []) (4 ∷ [])
      ≡ some value)
    × (decrypt_slot hashing (encrypt_slot hashing value (3 ∷ []) (4 ∷ [])) (5 ∷ []) (4 ∷ []) ≡ none)
unfolding keystream
decrypt_slot-encrypt_slot_example =
    decrypt_slot-encrypt_slot hashing value (3 ∷ []) (4 ∷ []) (5 ∷ []) (4 ∷ []) refl value-All refl
      (λ e. absurd (grind (arith, e)))
