-- ===== src/Consensus/State/Proposer.antt =====
-- src/consensus/tendermint.rs: proposer selection.
use native.Mathlib.Nat.{add_comm, add-mod_right, mod-add-mod, mod-lt, mod-eq_of_lt}
use cipher_x.Prelude.{
  ℕ, ◌+◌, ◌-◌, ◌%◌, ◌<◌, ◌≤◌, ◌≡◌, sym, ap, false, ◌==◌, ◌∙◌, arith, length, get_elem?, u64_mod,
  add64,
}
use cipher_x.Crates.{Crates}
use cipher_x.Consensus.State.{Engine, proposer_for_round}

-- The rounds until the turn of index `i`, from a start at `h`.
abbrev rounds_until : ℕ → ℕ → ℕ → ℕ
rounds_until h n i = (i + n - h % n) % n

turn_comes : (h n i : ℕ) → i < n → (h + rounds_until h n i) % n ≡ i
turn_comes h n i lt =
    let m = h % n in
    let below : m < n = mod-lt h (omega arith) in
    sym (mod-add-mod h n (rounds_until h n i))
    ∙ ap (λ x. x % n) (add_comm m (rounds_until h n i))
    ∙ mod-add-mod (i + n - m) n m
    ∙ ap (λ x. x % n) (omega arith)
    ∙ add-mod_right i n
    ∙ mod-eq_of_lt lt

module _ {c : Crates} (e : Engine c) where
  proposer_at :
      (r i : ℕ)
      → 0 < length e.validator_nullifiers
      → e.height + r < u64_mod
      → (e.height + r) % length e.validator_nullifiers ≡ i
      → proposer_for_round r e ≡ get_elem? e.validator_nullifiers i
  unfolding proposer_for_round
  proposer_at r i pos small turn =
      let some_validator : (length e.validator_nullifiers == 0) ≡ false = ground arith in
      let no_wrap : add64 e.height r ≡ e.height + r = omega arith in
      rw (some_validator, no_wrap, turn, proposer_for_round)

  -- Every validator of the list is the proposer of one of the first `n` rounds of a height, for `n`
  -- validators, if the height and `n` together do not overflow.
  pub every_validator_proposes :
      (i : ℕ)
      → i < length e.validator_nullifiers
      → e.height + length e.validator_nullifiers ≤ u64_mod
      → (r : ℕ) × (r < length e.validator_nullifiers)
        × (proposer_for_round r e ≡ get_elem? e.validator_nullifiers i)
  every_validator_proposes i lt small =
      let n = length e.validator_nullifiers in
      let r = rounds_until e.height n i in
      let below : r < n = omega arith in
      (r, below, proposer_at r i (omega arith) (omega arith) (turn_comes e.height n i lt))
