-- ===== src/Consensus/Slashing.antt =====
-- src/consensus/slashing.rs. The ratio of missed blocks is compared by cross-multiplication: for windows
-- below 2^50 the source's f64 comparison with 0.05, 0.20 and 0.50 gives the same answers, also for
-- an empty window, where the quotient is infinite or not a number and every comparison fails.
use cipher_x.Prelude.{ℕ, ◌*◌, ◌≤◌, ◌≡◌, Bool, true, false, ltb, if◌then◌else◌, arith}
use cipher_x.Core.Types.{BlockHash}

pub data SlashReason : Type 0 where
  double_signing : BlockHash → BlockHash → SlashReason
  surround_voting : SlashReason
  downtime : ℕ → ℕ → SlashReason

-- The share of the stake in percent, whether it is burned, and whether the validator is banned.
unfoldable pub compute_slash : SlashReason → ℕ × Bool × Bool
compute_slash (double_signing a b) = (100, true, true)
compute_slash surround_voting = (100, true, true)
compute_slash (downtime missed window) =
    if ltb (missed * 20) window
    then (0, false, false)
    else if ltb (missed * 5) window
    then (10, false, false)
    else if ltb (missed * 2) window
    then (50, false, true)
    else (100, true, true)

-- More missed blocks in one window never cost less: the share grows, and a burn and a ban stay.
pub compute_slash_mono :
    (m n window : ℕ)
    → m ≤ n
    → ((compute_slash (downtime m window)).0 ≤ (compute_slash (downtime n window)).0)
      × ((compute_slash (downtime m window)).1 ≡ true
          → (compute_slash (downtime n window)).1 ≡ true)
      × ((compute_slash (downtime m window)).2 ≡ true
          → (compute_slash (downtime n window)).2 ≡ true)
unfolding compute_slash
compute_slash_mono m n window h = (ground arith, (λ b. ground arith), (λ b. ground arith))
