-- ===== src/Core/Params/Schedule.antt =====
-- The emission schedule of src/core/chain.rs, `block_reward`.
use native.Mathlib.Nat.{
  le-div_iff_mul-le, div-mul-le_self, one-le-pow, pow-le-pow_right, mul-le-mul_left, div-le_self,
  le_trans,
}
use cipher_x.Prelude.{ℕ, ◌/◌, ◌^◌, ◌≤◌, ◌<◌, arith}
use cipher_x.Core.Params.{block_reward, initial_block_reward, tail_emission, halving_interval}

-- A larger divisor gives a smaller quotient.
div_antitone : (n p q : ℕ) → 0 < p → p ≤ q → n / q ≤ n / p
div_antitone n p q h le =
    (le-div_iff_mul-le h).1 (le_trans (mul-le-mul_left (n / q) le) (div-mul-le_self n q))

-- The reward never grows with the height, never falls below the tail emission, and is the initial
-- reward at most.
pub block_reward_antitone :
    (i k : ℕ)
    → i ≤ k
    → (block_reward k ≤ block_reward i)
      × (tail_emission ≤ block_reward k)
      × (block_reward i ≤ initial_block_reward)
unfolding block_reward
block_reward_antitone i k h =
    let a = i / halving_interval in
    let b = k / halving_interval in
    let less =
      div_antitone initial_block_reward (2 ^ a) (2 ^ b) (one-le-pow a 2 (omega arith))
        (pow-le-pow_right (omega arith) (omega (arith, h))) in
    let top = div-le_self initial_block_reward (2 ^ a) in
    let later : a ≤ b = omega (arith, h) in
    (ground (arith, less, later), ground arith, ground (arith, top))
