-- ===== src/Core/Params.antt =====
-- src/core/chain.rs, `ChainParams`: the constants and the emission schedule.
pub mod Schedule
use cipher_x.Prelude.{ℕ, ◌+◌, ◌*◌, ◌/◌, ◌^◌, ◌≤◌, ◌<◌, ◌≡◌, leb, if◌then◌else◌, arith}

abbrev pub max_supply : ℕ
max_supply = 18_400_000

abbrev pub premine : ℕ
premine = 2_000

abbrev pub initial_block_reward : ℕ
initial_block_reward = 4_000_000

abbrev pub halving_interval : ℕ
halving_interval = 126_144_000

abbrev pub tail_emission : ℕ
tail_emission = 130

-- nCIP in one CIP.
abbrev pub ncip : ℕ
ncip = 1_000_000_000

unfoldable pub block_reward : ℕ → ℕ
block_reward height =
    let halvings = height / halving_interval in
    if leb 64 halvings
    then tail_emission
    else (let reward = initial_block_reward / 2 ^ halvings in
        if leb reward tail_emission then tail_emission else reward)
