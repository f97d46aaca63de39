-- ===== src/Network/Peer.antt =====
-- src/network/peer.rs: the reputation of a peer. A score is an i32 between 0 and 100, by `penalize`
-- with amounts that are not negative.
use cipher_x.Prelude.{ℕ, ◌-◌, ◌+◌, ◌≤◌, ◌≡◌, Bool, Option, List, [], ◌∷◌, true, Bytes, ◌==◌, arith}

pub record PeerInfo : Type 0 where
  pub peer_id : Bytes
  pub onion_address : Option Bytes
  pub version : Bytes
  pub height : ℕ

pub record PeerReputation : Type 0 where
  pub peer_id : Bytes
  pub score : ℕ
  pub bans : ℕ

unfoldable pub new : Bytes → PeerReputation
new peer_id = record { peer_id = peer_id; score = 100; bans = 0 }

-- `(score - amount).max(0)`
unfoldable pub penalize : ℕ → PeerReputation → PeerReputation
penalize amount r = record r { score = r.score - amount }

unfoldable pub is_banned : PeerReputation → Bool
is_banned r = r.score == 0

unfoldable pub penalize_all : List ℕ → PeerReputation → PeerReputation
unfolding penalize
penalize_all [] r = r
penalize_all (n ∷ ns) r = penalize_all ns (penalize n r)

abbrev pub total : List ℕ → ℕ
total [] = 0
total (n ∷ ns) = n + total ns

score-penalize_all :
    (ns : List ℕ) (r : PeerReputation) → (penalize_all ns r).score ≡ r.score - total ns
unfolding penalize_all penalize
score-penalize_all [] r = omega arith
score-penalize_all (n ∷ ns) r = omega (arith, score-penalize_all ns (penalize n r))

-- A new peer is banned exactly if its penalties, in whatever portions, are 100 or more in all.
pub is_banned-penalize_all :
    (ns : List ℕ) (peer_id : Bytes)
    → (100 ≤ total ns → is_banned (penalize_all ns (new peer_id)) ≡ true)
      × (is_banned (penalize_all ns (new peer_id)) ≡ true → 100 ≤ total ns)
unfolding is_banned new
is_banned-penalize_all ns peer_id =
    let e = score-penalize_all ns (new peer_id) in
    ((λ h. ground (arith, e, h)), (λ h. ground (arith, e, h)))
