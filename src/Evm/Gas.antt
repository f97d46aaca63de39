-- ===== src/Evm/Gas.antt =====
-- src/evm/gas.rs: the gas tracker and the fee of a transaction. Its fee market is the one of
-- src/core/state.rs again, modelled there. The conversions to f64 are left out.
use cipher_x.Prelude.{
  ℕ, ◌+◌, ◌-◌, ◌*◌, ◌/◌, ◌≤◌, ◌<◌, ◌≡◌, ltb, if◌then◌else◌, arith, min, mul64, add64,
  saturating_add, u64_mod, List, [], ◌∷◌,
}
use cipher_x.Core.FeeMarket.{FeeMarket, update}
use cipher_x.Std.Result.{Result, ok, err}

pub record GasTracker : Type 0 where
  pub limit : ℕ
  pub used : ℕ

pub data OutOfGas : Type 0 where
  out_of_gas : OutOfGas

unfoldable pub new : ℕ → GasTracker
new limit = record { limit = limit; used = 0 }

unfoldable pub consume : ℕ → GasTracker → GasTracker × Result OutOfGas (Unit {0})
consume amount t =
    if ltb t.limit (saturating_add t.used amount)
    then (t, err out_of_gas)
    else (record t { used = add64 t.used amount }, ok tt)

unfoldable pub remaining : GasTracker → ℕ
remaining t = t.limit - t.used

unfoldable pub refund : ℕ → GasTracker → GasTracker
refund amount t = record t { used = t.used - min amount (t.used / 5) }

pub record FeeBreakdown : Type 0 where
  pub gas_used : ℕ
  pub base_fee_per_gas : ℕ
  pub priority_fee_per_gas : ℕ
  pub burned_ncip : ℕ
  pub tip_ncip : ℕ
  pub total_ncip : ℕ

unfoldable pub compute : ℕ → ℕ → ℕ → FeeBreakdown
compute gas_used base_fee priority_fee = record {
  gas_used = gas_used;
  base_fee_per_gas = base_fee;
  priority_fee_per_gas = priority_fee;
  burned_ncip = mul64 gas_used base_fee;
  tip_ncip = mul64 gas_used priority_fee;
  total_ncip = add64 (mul64 gas_used base_fee) (mul64 gas_used priority_fee);
}

-- An operation of the tracker.
pub data GasOp : Type 0 where
  consuming refunding : ℕ → GasOp

unfoldable pub step : GasOp → GasTracker → GasTracker
unfolding consume refund
step (consuming n) t = (consume n t).0
step (refunding n) t = refund n t

unfoldable pub run : List GasOp → GasTracker → GasTracker
unfolding step
run [] t = t
run (o ∷ os) t = run os (step o t)

run_within :
    (os : List GasOp) (t : GasTracker)
    → t.limit < u64_mod
    → t.used ≤ t.limit
    → ((run os t).limit ≡ t.limit) × ((run os t).used ≤ t.limit)
unfolding run step consume refund
run_within [] t h le = (omega arith, le)
run_within (consuming n ∷ os) t h le =
    let rest = run_within os (step (consuming n) t) (ground (arith, h)) (ground (arith, h, le)) in
    ground (arith, rest)
run_within (refunding n ∷ os) t h le =
    let rest = run_within os (step (refunding n) t) h (omega (arith, le)) in rest

-- Whatever is consumed from and refunded to a new tracker, with a limit of 64 bits, the gas used
-- stays within the limit, which stays as it was.
pub run-new :
    (os : List GasOp) (limit : ℕ)
    → limit < u64_mod
    → ((run os (new limit)).limit ≡ limit) × ((run os (new limit)).used ≤ limit)
unfolding new
run-new os limit h = run_within os (new limit) h (omega arith)

-- Below the largest u64 as the limit, and with the gas used within it: consuming what remains, or
-- less, is counted in full, and anything more is an error and changes nothing. A refund of at most
-- a fifth of the gas used is given back in full, and never more than a fifth.
pub consume-refund :
    (n : ℕ) (t : GasTracker)
    → t.limit + 1 < u64_mod
    → t.used ≤ t.limit
    → (n ≤ remaining t
        → ((consume n t).0.used ≡ t.used + n) × (remaining (consume n t).0 + n ≡ remaining t))
      × (remaining t < n → (consume n t ≡ (t, err out_of_gas)))
      × (n * 5 ≤ t.used → (refund n t).used + n ≡ t.used)
      × (t.used ≤ (refund n t).used + t.used / 5)
unfolding consume refund remaining
consume-refund n t h le = (λ k. ground arith, λ k. ground arith, λ k. omega arith, omega arith)

-- With the largest u64 as the limit every amount is accepted, and an amount that overflows the
-- counter lowers it.
pub consume_unlimited :
    (n : ℕ) (t : GasTracker)
    → t.limit ≡ u64_mod - 1
    → t.used < u64_mod
    → n < u64_mod
    → ((consume n t).1 ≡ ok tt) × (u64_mod ≤ t.used + n → (consume n t).0.used < t.used)
unfolding consume
consume_unlimited n t h le m = (ground arith, λ k. ground arith)

-- `FeeMarket::update_base_fee`, which repeats the update of src/core/state.rs.
unfoldable pub update_base_fee : ℕ → FeeMarket → FeeMarket
unfolding update
update_base_fee gas_used m = update gas_used m
