-- ===== src/Network/Sync.antt =====
-- src/network/sync.rs: the synchronisation state. The percentage in f64 is left out.
use cipher_x.Prelude.{
  ℕ, zero, suc, ◌+◌, ◌-◌, ◌≤◌, ◌<◌, ◌≡◌, ◌≢◌, refl, Bool, true, false, not, ◌&&◌, Option, none,
  some, List, [], ◌∷◌, Bytes, ltb, leb, if◌then◌else◌, arith, add64,
}

pub data SyncMode : Type 0 where
  full fast : SyncMode
  catchup : ℕ → ℕ → SyncMode

pub record SyncState : Type 0 where
  pub mode : SyncMode
  pub local_height : ℕ
  pub target_height : ℕ
  pub syncing : Bool
  pub blocks_downloaded : ℕ
  pub sync_peer : Option Bytes

unfoldable pub new : ℕ → SyncState
new local_height = record {
  mode = catchup local_height local_height;
  local_height = local_height;
  target_height = local_height;
  syncing = false;
  blocks_downloaded = 0;
  sync_peer = none;
}

-- The mode for a gap.
unfoldable pub choose_mode : ℕ → ℕ → SyncMode
choose_mode local_height peer_height =
    if ltb 10_000 (peer_height - local_height)
    then fast
    else catchup (add64 local_height 1) peer_height

unfoldable pub update_target : ℕ → Bytes → SyncState → SyncState
unfolding choose_mode
update_target peer_height peer s =
    if ltb s.target_height peer_height
    then record s {
      target_height = peer_height;
      mode = choose_mode s.local_height peer_height;
      syncing = true;
      sync_peer = if s.syncing then s.sync_peer else some peer;
    }
    else s

unfoldable pub on_block_applied : ℕ → SyncState → SyncState
on_block_applied height s =
    let s' : SyncState = record s {
      local_height = height;
      blocks_downloaded = add64 s.blocks_downloaded 1;
    } in
    if leb s.target_height height then record s' { syncing = false; sync_peer = none } else s'

unfoldable pub is_synced : SyncState → Bool
is_synced s = not s.syncing && leb s.target_height s.local_height

unfoldable pub blocks_remaining : SyncState → ℕ
blocks_remaining s = s.target_height - s.local_height

-- What the node tells the state.
pub data SyncEvent : Type 0 where
  learns : ℕ → Bytes → SyncEvent
  applies : ℕ → SyncEvent

unfoldable pub sync_step : SyncEvent → SyncState → SyncState
unfolding update_target on_block_applied
sync_step (learns height peer) s = update_target height peer s
sync_step (applies height) s = on_block_applied height s

unfoldable pub sync_run : List SyncEvent → SyncState → SyncState
unfolding sync_step
sync_run [] s = s
sync_run (e ∷ es) s = sync_run es (sync_step e s)

-- A peer is known while syncing, and only then; the target is not below a bound.
abbrev Consistent : ℕ → SyncState → Type 0
Consistent bound s =
    (s.syncing ≡ true → s.sync_peer ≢ none)
    × (s.syncing ≡ false → s.sync_peer ≡ none)
    × (bound ≤ s.target_height)

sync_step-Consistent :
    (bound : ℕ) (e : SyncEvent) (s : SyncState)
    → Consistent bound s
    → Consistent bound (sync_step e s)
unfolding sync_step update_target on_block_applied
sync_step-Consistent bound (learns height peer) s h =
    (λ k n. ground (arith, h, k, n), λ k. ground (arith, h, k), ground (arith, h))
sync_step-Consistent bound (applies height) s h =
    (λ k n. ground (arith, h, k, n), λ k. ground (arith, h, k), ground (arith, h))

sync_run-Consistent :
    (bound : ℕ) (es : List SyncEvent) (s : SyncState)
    → Consistent bound s
    → Consistent bound (sync_run es s)
unfolding sync_run
sync_run-Consistent bound [] s h = h
sync_run-Consistent bound (e ∷ es) s h =
    sync_run-Consistent bound es (sync_step e s) (sync_step-Consistent bound e s h)

-- Whatever the node learns and applies after a start at height `n`, the state names a peer to sync
-- from exactly while it is syncing, and its target never falls below `n`.
pub sync_run-new :
    (n : ℕ) (es : List SyncEvent)
    → ((sync_run es (new n)).syncing ≡ true → (sync_run es (new n)).sync_peer ≢ none)
      × ((sync_run es (new n)).syncing ≡ false → (sync_run es (new n)).sync_peer ≡ none)
      × (n ≤ (sync_run es (new n)).target_height)
unfolding new
sync_run-new n es =
    sync_run-Consistent n es (new n) (λ k. absurd (ground (arith, k)), λ k. refl, omega arith)

-- The blocks of `k` heights from `from + 1`, applied in order.
unfoldable pub apply_range : ℕ → ℕ → SyncState → SyncState
unfolding on_block_applied
apply_range zero from s = s
apply_range (suc k) from s = apply_range k (suc from) (on_block_applied (suc from) s)

apply_range_lem :
    (k from : ℕ) (s : SyncState)
    → s.local_height ≡ from
    → ((apply_range k from s).local_height ≡ from + k)
      × ((apply_range k from s).target_height ≡ s.target_height)
unfolding apply_range on_block_applied
apply_range_lem zero from s h = (omega (arith, h), refl)
apply_range_lem (suc k) from s h =
    let rest = apply_range_lem k (suc from) (on_block_applied (suc from) s) (ground arith) in
    ground (arith, rest)

-- A node that has applied blocks beyond its target starts to sync when it learns of a peer that is
-- not ahead of it, though no blocks remain.
pub update_target_behind :
    (height : ℕ) (peer : Bytes) (s : SyncState)
    → s.target_height < height
    → height ≤ s.local_height
    → ((update_target height peer s).syncing ≡ true)
      × (is_synced (update_target height peer s) ≡ false)
      × (blocks_remaining (update_target height peer s) ≡ 0)
unfolding update_target is_synced blocks_remaining
update_target_behind height peer s h le = (ground arith, ground arith, ground arith)
