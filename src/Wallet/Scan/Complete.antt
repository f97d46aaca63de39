-- ===== src/Wallet/Scan/Complete.antt =====
-- What the scans of src/bin/wallet.rs find, whatever the commands that ran them.

use cipher_x.Prelude.{
  ℕ, ◌+◌, ◌-◌, ◌≤◌, ◌<◌, ◌≡◌, refl, sym, ap, ◌∙◌, true, false, Option, none, some, List, [], ◌∷◌,
  Bytes, filter, leb, min, max, All, u64_mod, add64, Bool-cases, leb→le, Option-cases, inl, inr,
  arith,
}
use cipher_x.Crates.{Crates}
use cipher_x.Wallet.Data.{WalletData, Codecs}
use cipher_x.Wallet.Client.{
  DetectedOutput, JsonValues, Post, get_chain_height, get_outputs_in_range,
}
use cipher_x.Wallet.Scan.{
  ScanState, default_state, decode_32, own_outputs, total_ncip, scan_outputs, scan_to, cmd_balance,
  cmd_history,
}
use cipher_x.Wallet.Scan.Sums.{
  in_blocks, sum_by, sum_by-append, sum_by-split, sum_by-none, owned_by, own_outputs-sum, weight,
  weight-not_owned, total_of_lem,
}

pub data Command : Type 0 where
  balance : Command
  history : ℕ → Command

module _ (c : Crates) (t : Codecs) (j : JsonValues) (wallet : WalletData) where
  abbrev keys_view : Option Bytes
  keys_view = decode_32 c t wallet.private_view

  abbrev keys_spend : Option Bytes
  keys_spend = decode_32 c t wallet.public_spend

  -- A node that answers from the outputs `os` of a chain, as far as its height.
  pub record Answers (os : List DetectedOutput) (post : Post j) : Type 0 where
    pub height : ℕ
    pub fits : height + 1 < u64_mod
    pub at_height : get_chain_height j post ≡ some height
    pub lists :
        (from to : ℕ)
        → from ≤ to
        → to ≤ height
        → get_outputs_in_range j post from to ≡ filter (in_blocks from to) os

  -- What the cache holds is what blocks `low + 1` to the last one scanned hold for the wallet, each
  -- output as often as the chain lists it.
  pub record Counted (low : ℕ) (os : List DetectedOutput) (st : ScanState) : Type 0 where
    pub bounded : st.last_scanned_block + 1 < u64_mod
    pub above : low ≤ st.last_scanned_block
    pub sums :
        (f : DetectedOutput → ℕ)
        → ((o : DetectedOutput) → owned_by c t keys_view keys_spend o ≡ false → f o ≡ 0)
        → sum_by f st.detected_outputs
          ≡ sum_by f (filter (in_blocks (low + 1) st.last_scanned_block) os)

  empty-Counted :
      (os : List DetectedOutput) (low : ℕ)
      → low + 1 < u64_mod
      → Counted low os (record { last_scanned_block = low; detected_outputs = [] })
  unfolding sum_by
  empty-Counted os low h = record {
    bounded = h;
    above = omega arith;
    sums = λ f k. omega (arith, sum_by-none f low os);
  }

  scan_to-Counted :
      (low : ℕ) (os : List DetectedOutput) (post : Post j) (a : Answers os post) (st : ScanState)
      → Counted low os st
      → Counted low os (scan_to c t j wallet post a.height st)
  unfolding scan_to scan_outputs
  scan_to-Counted low os post a st ih =
      let last = st.last_scanned_block in
      let next : add64 last 1 ≡ last + 1 = omega (arith, ih.bounded) in
      elim (Bool-cases (leb (last + 1) a.height)) [
        | inl new ↦
            let fresh = filter (in_blocks (last + 1) a.height) os in
            rw (next, new, a.lists (last + 1) a.height (leb→le _ _ new) (omega arith))
              (record {
                bounded = a.fits;
                above = omega (arith, ih.above, leb→le _ _ new);
                sums = λ f h. omega (
                  arith,
                  sum_by-append f st.detected_outputs (own_outputs c t keys_view keys_spend fresh),
                  own_outputs-sum c t keys_view keys_spend f fresh h,
                  ih.sums f h,
                  sum_by-split f low last a.height os ih.above (omega (arith, leb→le _ _ new)),
                );
              })
        | inr old ↦ rw (next, old) ih
      ]

  scan_to-last :
      (post : Post j) (height : ℕ) (st : ScanState)
      → st.last_scanned_block + 1 < u64_mod
      → (scan_to c t j wallet post height st).last_scanned_block ≡ max st.last_scanned_block height
  unfolding scan_to
  scan_to-last post height st h = ground arith

  -- A command leaves this cache.
  unfoldable pub run_command : Command → Post j → ScanState → ScanState
  unfolding cmd_balance cmd_history
  run_command balance post st = (cmd_balance c t j wallet post st).0
  run_command (history limit) post st = (cmd_history c t j wallet post limit st).0

  unfoldable pub run_commands : List (Command × Post j) → ScanState → ScanState
  unfolding run_command
  run_commands [] st = st
  run_commands ((command, post) ∷ rest) st = run_commands rest (run_command command post st)

  run_command-scan_to :
      (os : List DetectedOutput) (command : Command) (post : Post j) (a : Answers os post)
      (st : ScanState)
      → run_command command post st ≡ scan_to c t j wallet post a.height st
  unfolding run_command cmd_balance cmd_history
  run_command-scan_to os balance post a st = rw (a.at_height, run_command, cmd_balance) refl
  run_command-scan_to os (history limit) post a st = rw (a.at_height, run_command, cmd_history) refl

  run_commands-Counted :
      (low : ℕ) (os : List DetectedOutput) (visits : List (Command × Post j)) (st : ScanState)
      → All (λ v. Answers os v.1) visits
      → Counted low os st
      → Counted low os (run_commands visits st)
  unfolding run_commands
  run_commands-Counted low os [] st a h = h
  run_commands-Counted low os ((command, post) ∷ rest) st a h =
      run_commands-Counted low os rest (run_command command post st) a.1
        (rw (run_command-scan_to os command post a.0 st) (scan_to-Counted low os post a.0 st h))

  -- The total is that of the weights, whatever the order.
  total_ncip-sum :
      (xs ys : List DetectedOutput)
      → ((f : DetectedOutput → ℕ)
          → ((o : DetectedOutput) → owned_by c t keys_view keys_spend o ≡ false → f o ≡ 0)
          → sum_by f xs ≡ sum_by f ys)
      → total_ncip c t wallet xs ≡ total_ncip c t wallet ys
  unfolding total_ncip owned_by
  total_ncip-sum xs ys h = elim (Option-cases keys_view) [
    | inl e ↦ rw (e, total_ncip) refl
    | inr (v, ev) ↦ elim (Option-cases keys_spend) [
      | inl e ↦ rw (ev, e, total_ncip) refl
      | inr (s, es) ↦
          let same : sum_by (weight c t v s) xs ≡ sum_by (weight c t v s) ys =
            rw (ev, es) at h (weight c t v s) (weight-not_owned c t v s) in
          rw (ev, es, total_ncip)
            (total_of_lem c t v s 0 xs (omega arith)
              ∙ ap (λ n. min (0 + n) (u64_mod - 1)) same
              ∙ sym (total_of_lem c t v s 0 ys (omega arith)))
    ]
  ]

  -- The balance that is shown after any commands.
  balance_after :
      (low : ℕ) (os : List DetectedOutput) (visits : List (Command × Post j)) (post : Post j)
      → low + 1 < u64_mod
      → All (λ v. Answers os v.1) visits
      → (a : Answers os post)
      → let start : ScanState = record { last_scanned_block = low; detected_outputs = [] } in
        let st = run_commands visits start in
        let (st', shown) = cmd_balance c t j wallet post st in
        (shown
          ≡ some (total_ncip c t wallet (filter (in_blocks (low + 1) st'.last_scanned_block) os)))
        × (st'.last_scanned_block ≡ max st.last_scanned_block a.height)
  unfolding cmd_balance
  balance_after low os visits post bound answers a =
      let start : ScanState = record { last_scanned_block = low; detected_outputs = [] } in
      let st = run_commands visits start in
      let settled =
        (run_commands-Counted low os visits start answers (empty-Counted os low bound)) in
      let counted = scan_to-Counted low os post a st settled in
      rw (a.at_height, cmd_balance)
        (ap some (total_ncip-sum _ _ counted.sums), scan_to-last post a.height st settled.bounded)

  -- Whatever balance and history commands ran before, from an empty cache and against nodes that
  -- answer from one chain, the balance that is shown next is the total of the amounts that the
  -- wallet's keys decrypt in the blocks from 1 to the last one scanned, each output counted once,
  -- where heights are below 2^64 - 1; and that block is the height of the node, or that of an
  -- earlier scan if it is larger.
  pub cmd_balance_complete :
      (os : List DetectedOutput) (visits : List (Command × Post j)) (post : Post j)
      → All (λ v. Answers os v.1) visits
      → (a : Answers os post)
      → let st = run_commands visits default_state in
        let (st', shown) = cmd_balance c t j wallet post st in
        (shown ≡ some (total_ncip c t wallet (filter (in_blocks 1 st'.last_scanned_block) os)))
        × (st'.last_scanned_block ≡ max st.last_scanned_block a.height)
  unfolding default_state
  cmd_balance_complete os visits post answers a =
      balance_after 0 os visits post (omega arith) answers a

  own_outputs-nil : (v s : Option Bytes) → own_outputs c t v s [] ≡ []
  unfolding own_outputs
  own_outputs-nil (some v) (some s) = refl
  own_outputs-nil none s = refl
  own_outputs-nil (some v) none = refl

  failed :
      (failing : Post j) (height : ℕ)
      → get_chain_height j failing ≡ some height
      → 0 < height
      → get_outputs_in_range j failing 1 height ≡ []
      → run_command balance failing default_state
        ≡ record { last_scanned_block = height; detected_outputs = [] }
  unfolding run_command cmd_balance scan_to scan_outputs default_state
  failed failing height at_height positive nothing =
      let new : leb 1 height ≡ true = ground arith in
      rw (at_height, run_command, cmd_balance, new, nothing, own_outputs-nil keys_view keys_spend)
        refl

  -- A scan from an empty cache that the node leaves without an answer, when it has told its height,
  -- not zero and below 2^64 - 1, counts its blocks as scanned: whatever commands run later against
  -- nodes that answer from one chain, the balance that is shown leaves out all outputs up to that height.
  pub failed_scan-loses :
      (os : List DetectedOutput) (failing : Post j) (height : ℕ) (visits : List (Command × Post j))
      (post : Post j)
      → get_chain_height j failing ≡ some height
      → 0 < height
      → height + 1 < u64_mod
      → get_outputs_in_range j failing 1 height ≡ []
      → All (λ v. Answers os v.1) visits
      → (a : Answers os post)
      → let st = run_commands ((balance, failing) ∷ visits) default_state in
        let (st', shown) = cmd_balance c t j wallet post st in
        shown
        ≡ some (total_ncip c t wallet (filter (in_blocks (height + 1) st'.last_scanned_block) os))
  unfolding run_commands
  failed_scan-loses os failing height visits post at_height positive bound nothing answers a =
      rw (failed failing height at_height positive nothing)
        (balance_after height os visits post bound answers a).0
