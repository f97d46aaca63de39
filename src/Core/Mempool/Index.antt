-- ===== src/Core/Mempool/Index.antt =====
-- src/core/mempool.rs: the index of key images.
use mathlib.Core.List.{filter_map}
use cipher_x.Prelude.{
  ◌≡◌, ◌≢◌, refl, sym, ap, subst, ◌∙◌, leb, none, some, List, [], ◌∷◌, Bytes-discrete, arith, All,
  All-map, Absent, Bool-cases, Option-cases, inl, inr, ◌⊎◌,
}
use cipher_x.Std.HashMap.{HashMap}
use cipher_x.Std.HashMap
use cipher_x.Core.Types.{Transaction, TxId, KeyImage}
use cipher_x.Core.Transaction.{key_images}
use cipher_x.Core.Transaction
use cipher_x.Core.Mempool.{
  Mempool, max_mempool_size, new, conflict, register, release, add, remove, to_remove, remove_all,
  purge_spent,
}
use cipher_x.Crates.{Crates}

abbrev Pending : HashMap KeyImage TxId → TxId → KeyImage → Type 0
Pending m i k = HashMap.get Bytes-discrete k m ≡ some i

-- The key images of each transaction in the pool are pending under its id.
abbrev pub Indexed : Mempool → Type 0
Indexed pool =
    (i : TxId) (tx : Transaction)
    → HashMap.get Bytes-discrete i pool.txs ≡ some tx
    → All (λ k. HashMap.get Bytes-discrete k pool.pending_key_images ≡ some i) (key_images tx)

pub new-Indexed : Indexed new
new-Indexed i tx h =
    absurd (grind (arith, h, HashMap.get-empty {K = TxId} {V = Transaction} Bytes-discrete i))

conflict-none :
    (m : HashMap KeyImage TxId) (ks : List KeyImage)
    → conflict m ks ≡ none
    → All (λ k. HashMap.get Bytes-discrete k m ≡ none) ks
unfolding conflict
conflict-none m [] h = tt
conflict-none m (k ∷ ks) h = elim (Option-cases (HashMap.get Bytes-discrete k m)) [
  | inl n ↦ (n, conflict-none m ks (ground (arith, n, h)))
  | inr (i, e) ↦ absurd (ground (arith, e, h))
]

register_keeps :
    (i : TxId) (ks : List KeyImage) (j : KeyImage) (m : HashMap KeyImage TxId)
    → All (λ k. k ≢ j) ks
    → HashMap.get Bytes-discrete j (register i ks m) ≡ HashMap.get Bytes-discrete j m
unfolding register
register_keeps i [] j m h = refl
register_keeps i (k ∷ ks) j m h =
    register_keeps i ks j (HashMap.insert Bytes-discrete k i m) h.1
    ∙ ground (arith, HashMap.get-insert Bytes-discrete k j i m, h.0)

register_again :
    (i : TxId) (ks : List KeyImage) (j : KeyImage) (m : HashMap KeyImage TxId)
    → Pending m i j
    → Pending (register i ks m) i j
unfolding register
register_again i [] j m h = h
register_again i (k ∷ ks) j m h =
    register_again i ks j (HashMap.insert Bytes-discrete k i m)
      (ground (arith, HashMap.get-insert Bytes-discrete k j i m, h))

register-Pending :
    (i : TxId) (ks : List KeyImage) (m : HashMap KeyImage TxId)
    → All (Pending (register i ks m) i) ks
unfolding register
register-Pending i [] m = tt
register-Pending i (k ∷ ks) m =
    let m' = HashMap.insert Bytes-discrete k i m in
    (
      register_again i ks k m' (HashMap.get-insert_self Bytes-discrete k i m),
      register-Pending i ks m',
    )

release_keeps :
    (ks : List KeyImage) (j : KeyImage) (m : HashMap KeyImage TxId)
    → All (λ k. k ≢ j) ks
    → HashMap.get Bytes-discrete j (release ks m) ≡ HashMap.get Bytes-discrete j m
unfolding release
release_keeps [] j m h = refl
release_keeps (k ∷ ks) j m h =
    release_keeps ks j (HashMap.remove Bytes-discrete k m) h.1
    ∙ ground (arith, HashMap.get-remove Bytes-discrete k j m, h.0)

add_accepted : (c : Crates) → Transaction → Mempool → Mempool
add_accepted c tx pool = record {
  txs = HashMap.insert Bytes-discrete (Transaction.id c tx) tx pool.txs;
  pending_key_images = register (Transaction.id c tx) (key_images tx) pool.pending_key_images;
}

-- `add` leaves the pool as it was, or puts the transaction into it.
add-cases :
    (c : Crates) (tx : Transaction) (pool : Mempool)
    → ((add c tx pool).0 ≡ pool)
      ⊎ ((conflict pool.pending_key_images (key_images tx) ≡ none)
          × ((add c tx pool).0 ≡ add_accepted c tx pool))
unfolding add add_accepted
add-cases c tx pool = elim (Bool-cases (leb max_mempool_size (HashMap.len pool.txs))) [
  | inl f ↦ inl (rw (f, add))
  | inr f ↦ elim (Option-cases (conflict pool.pending_key_images (key_images tx))) [
    | inr (i, e) ↦ inl (rw (f, e, add))
    | inl n ↦ elim (Bool-cases (Transaction.verify c tx)) [
      | inl v ↦ inr (n, rw (f, n, v, add))
      | inr v ↦ inl (rw (f, n, v, add))
    ]
  ]
]

-- Key images that are pending under no id or another differ from those of the id.
others :
    (m : HashMap KeyImage TxId) (j : KeyImage) (i : TxId) (ks : List KeyImage)
    → Pending m i j
    → All (λ k. HashMap.get Bytes-discrete k m ≡ none) ks
    → All (λ k. k ≢ j) ks
others m j i ks h hs = All-map (λ k n e. absurd (grind (arith, e, n, h))) ks hs

other_ids :
    (m : HashMap KeyImage TxId) (j : KeyImage) (i i' : TxId) (ks : List KeyImage)
    → Pending m i j
    → i ≢ i'
    → All (Pending m i') ks
    → All (λ k. k ≢ j) ks
other_ids m j i i' ks h d hs = All-map (λ k n e. absurd (grind (arith, e, n, h, d))) ks hs

add_accepted-Indexed :
    (c : Crates) (tx : Transaction) (pool : Mempool)
    → conflict pool.pending_key_images (key_images tx) ≡ none
    → Indexed pool
    → Indexed (add_accepted c tx pool)
unfolding add_accepted
add_accepted-Indexed c tx pool n inv i tx' h =
    elim (HashMap.get-insert_inv Bytes-discrete (Transaction.id c tx) i tx tx' pool.txs h) [
      | inl (e, e') ↦
          subst (λ t. All (Pending m' i) (key_images t)) e'
            (subst (λ x. All (Pending m' x) (key_images tx)) e
              (register-Pending (Transaction.id c tx) (key_images tx) pool.pending_key_images))
      | inr old ↦
          All-map
            (λ k p.
              register_keeps (Transaction.id c tx) (key_images tx) k pool.pending_key_images
                (others pool.pending_key_images k i (key_images tx) p free)
              ∙ p)
            (key_images tx') (inv i tx' old)
    ]
  where
    m' : HashMap KeyImage TxId
    m' = register (Transaction.id c tx) (key_images tx) pool.pending_key_images

    free : All (λ k. HashMap.get Bytes-discrete k pool.pending_key_images ≡ none) (key_images tx)
    free = conflict-none pool.pending_key_images (key_images tx) n

-- `add` keeps the index: if the key images of each transaction in the pool were pending under its
-- id, they are so after it, whether the transaction is taken or not.
pub add-Indexed :
    (c : Crates) (tx : Transaction) (pool : Mempool) → Indexed pool → Indexed (add c tx pool).0
add-Indexed c tx pool inv = elim (add-cases c tx pool) [
  | inl e ↦ subst Indexed (sym e) inv
  | inr (n, e) ↦ subst Indexed (sym e) (add_accepted-Indexed c tx pool n inv)
]

-- The transactions after `remove` are those with another id.
remove_txs :
    (i j : TxId) (tx : Transaction) (pool : Mempool)
    → HashMap.get Bytes-discrete j (remove i pool).txs ≡ some tx
    → (i ≢ j) × (HashMap.get Bytes-discrete j pool.txs ≡ some tx)
unfolding remove
remove_txs i j tx pool h = elim (Option-cases (HashMap.get Bytes-discrete i pool.txs)) [
  | inl n ↦
      let same : HashMap.get Bytes-discrete j pool.txs ≡ some tx = ground (arith, n, h) in
      ((λ e. absurd (grind (arith, e, n, same))), same)
  | inr (t, e) ↦
      let gone : HashMap.get Bytes-discrete j (HashMap.remove Bytes-discrete i pool.txs) ≡ some tx =
        ground (arith, e, h) in
      (
        ground (arith, gone, HashMap.get-remove Bytes-discrete i j pool.txs),
        ground (arith, gone, HashMap.get-remove Bytes-discrete i j pool.txs),
      )
]

remove-none :
    (i : TxId) (pool : Mempool)
    → HashMap.get Bytes-discrete i pool.txs ≡ none
    → remove i pool ≡ pool
unfolding remove
remove-none i pool h = rw (h, remove)

remove-pending_key_images :
    (i : TxId) (t : Transaction) (pool : Mempool)
    → HashMap.get Bytes-discrete i pool.txs ≡ some t
    → (remove i pool).pending_key_images ≡ release (key_images t) pool.pending_key_images
unfolding remove
remove-pending_key_images i t pool h = rw (h, remove)

-- `remove` keeps the index: if the key images of each transaction in the pool were pending under
-- its id, those of the transactions that stay are so after it.
pub remove-Indexed : (i : TxId) (pool : Mempool) → Indexed pool → Indexed (remove i pool)
remove-Indexed i pool inv = elim (Option-cases (HashMap.get Bytes-discrete i pool.txs)) [
  | inl n ↦ subst Indexed (sym (remove-none i pool n)) inv
  | inr (t, e) ↦ λ j tx h.
      let (d, old) = remove_txs i j tx pool h in
      All-map
        (λ k p.
          ap (HashMap.get Bytes-discrete k) (remove-pending_key_images i t pool e)
          ∙ release_keeps (key_images t) k pool.pending_key_images (
              other_ids pool.pending_key_images k j i (key_images t) p (λ q. d (sym q)) (inv i t e))
          ∙ p)
        (key_images tx) (inv j tx old)
]

-- Two transactions under different ids of an indexed pool have no key image in common.
pub Indexed-disjoint :
    (pool : Mempool) (i j : TxId) (tx tx' : Transaction)
    → Indexed pool
    → HashMap.get Bytes-discrete i pool.txs ≡ some tx
    → HashMap.get Bytes-discrete j pool.txs ≡ some tx'
    → i ≢ j
    → All (λ k. Absent k (key_images tx')) (key_images tx)
Indexed-disjoint pool i j tx tx' inv h h' d =
    All-map (λ k p. absent k (key_images tx') (λ e. d e) p (inv j tx' h')) (key_images tx)
      (inv i tx h)
  where
    absent :
        (k : KeyImage) (ks : List KeyImage)
        → i ≢ j
        → Pending pool.pending_key_images i k
        → All (Pending pool.pending_key_images j) ks
        → Absent k ks
    absent k [] d p hs = tt
    absent k (x ∷ xs) d p hs = ((λ e. absurd (grind (arith, e, d, p, hs.0))), absent k xs d p hs.1)

remove_all_txs :
    (is : List TxId) (j : TxId) (tx : Transaction) (pool : Mempool)
    → HashMap.get Bytes-discrete j (remove_all is pool).txs ≡ some tx
    → Absent j is × (HashMap.get Bytes-discrete j pool.txs ≡ some tx)
unfolding remove_all
remove_all_txs [] j tx pool h = (tt, h)
remove_all_txs (i ∷ is) j tx pool h =
    let (a, later) = remove_all_txs is j tx (remove i pool) h in
    let (d, old) = remove_txs i j tx pool later in (((λ e. d (sym e)), a), old)

pending_ids : HashMap KeyImage TxId → List KeyImage → List TxId
pending_ids m spent = filter_map (λ k. HashMap.get Bytes-discrete k m) spent

pending_ids-none :
    (m : HashMap KeyImage TxId) (s : KeyImage) (spent : List KeyImage)
    → HashMap.get Bytes-discrete s m ≡ none
    → pending_ids m (s ∷ spent) ≡ pending_ids m spent
unfolding pending_ids filter_map
pending_ids-none m s spent h = rw (h, filter_map)

pending_ids-some :
    (m : HashMap KeyImage TxId) (s : KeyImage) (spent : List KeyImage) (j : TxId)
    → Pending m j s
    → pending_ids m (s ∷ spent) ≡ j ∷ pending_ids m spent
unfolding pending_ids filter_map
pending_ids-some m s spent j h = rw (h, filter_map)

-- A pending key image whose transaction is not removed was not spent.
kept_unspent :
    (m : HashMap KeyImage TxId) (i : TxId) (k : KeyImage) (spent : List KeyImage)
    → Pending m i k
    → Absent i (pending_ids m spent)
    → Absent k spent
kept_unspent m i k [] p a = tt
kept_unspent m i k (s ∷ spent) p a = elim (Option-cases (HashMap.get Bytes-discrete s m)) [
  | inl n ↦ (
    (λ e. absurd (grind (arith, e, n, p))),
    kept_unspent m i k spent p (subst (Absent i) (pending_ids-none m s spent n) a),
  )
  | inr (j, e) ↦
      let a' = subst (Absent i) (pending_ids-some m s spent j e) a in
      ((λ q. absurd (grind (arith, e, q, p, a'.0))), kept_unspent m i k spent p a'.1)
]

-- After `purge_spent` no transaction that is left in an indexed pool has one of the spent key images.
pub purge_spent-unspent :
    (spent : List KeyImage) (pool : Mempool) (i : TxId) (tx : Transaction)
    → Indexed pool
    → HashMap.get Bytes-discrete i (purge_spent spent pool).txs ≡ some tx
    → All (λ k. Absent k spent) (key_images tx)
unfolding purge_spent to_remove pending_ids
purge_spent-unspent spent pool i tx inv h =
    let (a, old) = remove_all_txs (to_remove spent pool) i tx pool h in
    All-map (λ k p. kept_unspent pool.pending_key_images i k spent p a) (key_images tx)
      (inv i tx old)
