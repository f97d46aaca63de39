-- ===== src/Tests/Pool.antt =====
-- A pool with one transaction.
use cipher_x.Prelude.{ℕ, refl, [], ◌∷◌, Bytes-discrete, ℕ_discrete, All, Absent}
use mathlib.Core.List.{filter_map}
use cipher_x.Std.HashMap.{HashMap}
use cipher_x.Std.HashMap
use cipher_x.Core.Types.{Transaction, KeyImage, lite}
use cipher_x.Core.Transaction.{key_images}
use cipher_x.Core.Transaction
use cipher_x.Core.Mempool.{Mempool, add, remove, purge_spent}
use cipher_x.Core.Mempool
use cipher_x.Core.Mempool.Index.{Indexed, new-Indexed, add-Indexed, purge_spent-unspent}
use cipher_x.Tests.Toy.{toy}

-- A lite transaction that spends one key image.
abbrev paying : ℕ → KeyImage → Transaction
paying version k = record {
  tx_type = lite;
  inputs =
      record { ring_members = []; key_image = k; ring_signature = []; pseudo_commitment = [] } ∷ [];
  outputs = [];
  fee_commitment = [];
  fee_proof = [];
  extra = [];
  version = version;
}

abbrev first_tx : Transaction
first_tx = paying 1 (1 ∷ [])

abbrev second_tx : Transaction
second_tx = paying 2 (2 ∷ [])

abbrev one : Mempool
one = (add toy first_tx Mempool.new).0

abbrev two : Mempool
two = (add toy second_tx one).0

add-Indexed_example : Indexed one
add-Indexed_example = add-Indexed toy first_tx Mempool.new new-Indexed

two-Indexed : Indexed two
two-Indexed = add-Indexed toy second_tx one (add-Indexed toy first_tx Mempool.new new-Indexed)

-- The second transaction stays when the key image of the first is spent.
purge_spent-unspent_example : All (λ k. Absent k ((1 ∷ []) ∷ [])) (key_images second_tx)
unfolding HashMap.get purge_spent filter_map add HashMap.len key_images Transaction.verify
    HashMap.insert Bytes-discrete ℕ_discrete Transaction.id HashMap.remove
purge_spent-unspent_example =
    purge_spent-unspent ((1 ∷ []) ∷ []) two (2 ∷ []) second_tx two-Indexed refl
