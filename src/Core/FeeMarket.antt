-- ===== src/Core/FeeMarket.antt =====
-- src/core/state.rs: the fee market.
use native.Mathlib.Nat.{div-le_of_le-mul, mul-div_cancel, mul-le-mul_left}
use cipher_x.Prelude.{
  ℕ, ◌+◌, ◌-◌, ◌*◌, ◌/◌, ◌≤◌, ◌<◌, ◌≡◌, ◌⊎◌, inl, inr, ap, ◌∙◌, Bool-cases, max, ltb, ◌==◌,
  if◌then◌else◌, arith, mul64, saturating_add, u64_mod,
}

pub record FeeMarket : Type 0 where
  pub base_fee_per_gas : ℕ
  pub target_gas_per_block : ℕ
  pub max_gas_per_block : ℕ
  pub last_gas_used : ℕ

abbrev pub new : FeeMarket
new = record {
  base_fee_per_gas = 1_000;
  target_gas_per_block = 15_000_000;
  max_gas_per_block = 30_000_000;
  last_gas_used = 0;
}

-- `(base_fee * distance / target / 8).max(1)`, where `*` wraps. A target of 0 is the source's
-- panic of a division by zero; here the quotient is 0.
unfoldable pub delta : ℕ → ℕ → ℕ → ℕ
delta base_fee distance target = max (mul64 base_fee distance / target / 8) 1

unfoldable pub update : ℕ → FeeMarket → FeeMarket
unfolding delta
update gas_used m =
    let target = m.target_gas_per_block in
    if gas_used == target
    then record m { last_gas_used = gas_used }
    else if ltb target gas_used
    then record m {
      last_gas_used = gas_used;
      base_fee_per_gas =
          saturating_add m.base_fee_per_gas (delta m.base_fee_per_gas (gas_used - target) target);
    }
    else record m {
      last_gas_used = gas_used;
      base_fee_per_gas =
          max (m.base_fee_per_gas - delta m.base_fee_per_gas (target - gas_used) target) 1;
    }

unfoldable pub min_fee_ncip : ℕ → FeeMarket → ℕ
min_fee_ncip gas_limit m = mul64 gas_limit m.base_fee_per_gas

-- A change is 1 at least, and one eighth, or 1, at most.
delta_bounds :
    (base_fee distance target : ℕ)
    → distance ≤ target
    → base_fee * target < u64_mod
    → (1 ≤ delta base_fee distance target) × (delta base_fee distance target ≤ max (base_fee / 8) 1)
unfolding delta
delta_bounds base_fee distance target le fits =
    let small = mul-le-mul_left base_fee le in
    let whole : mul64 base_fee distance ≡ base_fee * distance = omega (arith, small, fits) in
    let quotient : mul64 base_fee distance / target ≤ base_fee =
      div-le_of_le-mul target (omega (arith, small, whole)) in
    (omega arith, omega (arith, quotient))

-- The full distance moves the fee by an eighth.
delta_full :
    (base_fee target : ℕ)
    → 0 < target
    → base_fee * target < u64_mod
    → delta base_fee target target ≡ max (base_fee / 8) 1
unfolding delta
delta_full base_fee target pos fits =
    let whole : mul64 base_fee target ≡ base_fee * target = omega (arith, fits) in
    let quotient : base_fee * target / target ≡ base_fee = mul-div_cancel base_fee pos in
    ap (λ n. max (n / 8) 1) (ap (λ n. n / target) whole ∙ quotient)

-- Below the target the fee falls, or it is 1.
falls :
    (base_fee delta : ℕ)
    → 1 ≤ base_fee
    → 1 ≤ delta
    → (max (base_fee - delta) 1 < base_fee) ⊎ ((base_fee ≡ 1) × (max (base_fee - delta) 1 ≡ 1))
falls base_fee delta one h = elim (Bool-cases (base_fee == 1)) [
  | inl e ↦ inr (ground arith, ground arith)
  | inr e ↦ inl (ground arith)
]

update_below :
    (gas_used : ℕ) (m : FeeMarket)
    → gas_used < m.target_gas_per_block
    → (update gas_used m).base_fee_per_gas
      ≡ max
          (m.base_fee_per_gas
            - delta m.base_fee_per_gas (m.target_gas_per_block - gas_used) m.target_gas_per_block)
          1
unfolding update
update_below gas_used m h = ground arith

update_above :
    (gas_used : ℕ) (m : FeeMarket)
    → m.target_gas_per_block < gas_used
    → (update gas_used m).base_fee_per_gas
      ≡ saturating_add m.base_fee_per_gas
          (delta m.base_fee_per_gas (gas_used - m.target_gas_per_block) m.target_gas_per_block)
unfolding update
update_above gas_used m h = ground arith

-- For gas of at most twice a positive target, a positive base fee and products within 64 bits: the
-- base fee falls below the target, unless it is 1 and stays so, stays as it is at the target, and
-- grows above it; it remains positive, and moves by an eighth, or 1, at most, which is what an empty
-- block takes off, down to 1 at least, and what twice the target adds.
pub update_lem :
    (gas_used : ℕ) (m : FeeMarket)
    → 0 < m.target_gas_per_block
    → gas_used ≤ 2 * m.target_gas_per_block
    → 1 ≤ m.base_fee_per_gas
    → m.base_fee_per_gas * m.target_gas_per_block < u64_mod
    → m.base_fee_per_gas + m.base_fee_per_gas / 8 + 1 < u64_mod
    → (gas_used < m.target_gas_per_block
        → ((update gas_used m).base_fee_per_gas < m.base_fee_per_gas)
          ⊎ ((m.base_fee_per_gas ≡ 1) × ((update gas_used m).base_fee_per_gas ≡ 1)))
      × (gas_used ≡ m.target_gas_per_block
          → (update gas_used m).base_fee_per_gas ≡ m.base_fee_per_gas)
      × (m.target_gas_per_block < gas_used
          → m.base_fee_per_gas < (update gas_used m).base_fee_per_gas)
      × (1 ≤ (update gas_used m).base_fee_per_gas)
      × ((update gas_used m).base_fee_per_gas ≤ m.base_fee_per_gas + max (m.base_fee_per_gas / 8) 1)
      × (m.base_fee_per_gas ≤ (update gas_used m).base_fee_per_gas + max (m.base_fee_per_gas / 8) 1)
      × ((update 0 m).base_fee_per_gas
          ≡ max (m.base_fee_per_gas - max (m.base_fee_per_gas / 8) 1) 1)
      × ((update (2 * m.target_gas_per_block) m).base_fee_per_gas
          ≡ m.base_fee_per_gas + max (m.base_fee_per_gas / 8) 1)
unfolding update
update_lem gas_used m pos le one fits room =
    let target = m.target_gas_per_block in
    let up = delta_bounds m.base_fee_per_gas (gas_used - target) target (omega (arith, le)) fits in
    let down = delta_bounds m.base_fee_per_gas (target - gas_used) target (omega arith) fits in
    let full = delta_full m.base_fee_per_gas target pos fits in
    (
      (λ below. rw (update_below gas_used m below) (
          falls m.base_fee_per_gas (delta m.base_fee_per_gas (target - gas_used) target) one
            down.0)),
      ground arith,
      ground (arith, up),
      ground (arith, up, down),
      ground (arith, up, down),
      ground (arith, up, down),
      update_below 0 m pos
          ∙ ap (λ d. max (m.base_fee_per_gas - delta m.base_fee_per_gas d target) 1)
              {x = target - 0} {y = target} (omega arith)
          ∙ ap (λ d. max (m.base_fee_per_gas - d) 1) full,
      update_above (2 * target) m (omega (arith, pos))
          ∙ ap (λ d. saturating_add m.base_fee_per_gas (delta m.base_fee_per_gas d target))
              {x = 2 * target - target} {y = target} (omega arith)
          ∙ ap (saturating_add m.base_fee_per_gas) full
          ∙ omega (arith, room),
    )
