-- ===== src/Core/Chain/Append/Accept.antt =====
-- What `append_block` of src/core/chain.rs accepts.
use cipher_x.Prelude.{
  ◌≤◌, ◌≡◌, ◌↔◌, refl, ap, true, false, none, some, List, [], ◌∷◌, Bytes-discrete, All, Absent,
  Distinct, ◌⊎◌, inl, inr, Option-cases, Bool-cases, arith, add64,
}
use cipher_x.Std.HashSet.{HashSet}
use cipher_x.Std.HashSet
use cipher_x.Std.Result.{ok, err}
use cipher_x.Core.Types.{Block, Transaction, KeyImage}
use cipher_x.Core.Transaction.{key_images}
use cipher_x.Core.Transaction
use cipher_x.Core.Chain.{
  Chain, ChainError, block_key_images, repeated, coinbase_count, coinbase_first, already_spent,
  validate_transaction, validate_all,
}
use cipher_x.Core.Chain.Append.{check_block, append_block, extend}
use cipher_x.Crates.{Crates}

-- `k` is not in the set.
abbrev pub Unspent : HashSet KeyImage → KeyImage → Type 0
Unspent s k = HashSet.contains Bytes-discrete k s ≡ false

-- Membership after one insertion, read backwards.
Unspent-insert :
    (k j : KeyImage) (s : HashSet KeyImage)
    → Unspent (HashSet.insert Bytes-discrete k s).0 j
    → (k ≡ j → ⊥) × Unspent s j
Unspent-insert k j s h = elim (Bytes-discrete k j) [
  | yes e ↦ absurd (ground (arith, HashSet.contains-insert Bytes-discrete k j s, h, e))
  | no n ↦ (n, ground (arith, HashSet.contains-insert Bytes-discrete k j s, h, n))
]

-- A new key, and the rest checked against the set with it.
repeated-cases :
    (seen : HashSet KeyImage) (k : KeyImage) (ks : List KeyImage)
    → repeated seen (k ∷ ks) ≡ none
    → Unspent seen k × (repeated (HashSet.insert Bytes-discrete k seen).0 ks ≡ none)
unfolding repeated
repeated-cases seen k ks h = elim (Bool-cases (HashSet.contains Bytes-discrete k seen)) [
  | inl t ↦ absurd (ground (arith, HashSet.insert_is_new Bytes-discrete k seen, t, h))
  | inr f ↦ (f, ground (arith, HashSet.insert_is_new Bytes-discrete k seen, f, h))
]

Unspent-rest :
    (seen : HashSet KeyImage) (k : KeyImage) (ks : List KeyImage)
    → All (Unspent (HashSet.insert Bytes-discrete k seen).0) ks
    → Absent k ks × All (Unspent seen) ks
Unspent-rest seen k [] h = (tt, tt)
Unspent-rest seen k (j ∷ ks) h =
    let here = Unspent-insert k j seen h.0 in
    let there = Unspent-rest seen k ks h.1 in ((here.0, there.0), (here.1, there.1))

repeated-none :
    (seen : HashSet KeyImage) (ks : List KeyImage)
    → repeated seen ks ≡ none
    → Distinct ks × All (Unspent seen) ks
repeated-none seen [] h = (tt, tt)
repeated-none seen (k ∷ ks) h =
    let (new, rest) = repeated-cases seen k ks h in
    let (d, u) = repeated-none (HashSet.insert Bytes-discrete k seen).0 ks rest in
    let (a, u') = Unspent-rest seen k ks u in ((a, d), (new, u'))

insert-Unspent :
    (seen : HashSet KeyImage) (k : KeyImage) (ks : List KeyImage)
    → Absent k ks
    → All (Unspent seen) ks
    → All (Unspent (HashSet.insert Bytes-discrete k seen).0) ks
insert-Unspent seen k [] a u = tt
insert-Unspent seen k (j ∷ ks) a u = (
  ground (arith, HashSet.contains-insert Bytes-discrete k j seen, a.0, u.0),
  insert-Unspent seen k ks a.1 u.1,
)

Distinct-none :
    (seen : HashSet KeyImage) (ks : List KeyImage)
    → Distinct ks
    → All (Unspent seen) ks
    → repeated seen ks ≡ none
unfolding repeated
Distinct-none seen [] d u = refl
Distinct-none seen (k ∷ ks) d u =
    let rest =
      Distinct-none (HashSet.insert Bytes-discrete k seen).0 ks d.1
        (insert-Unspent seen k ks d.0 u.1) in
    ground (arith, HashSet.insert_is_new Bytes-discrete k seen, u.0, rest)

already_spent-none :
    (s : HashSet KeyImage) (ks : List KeyImage) → already_spent s ks ≡ none → All (Unspent s) ks
unfolding already_spent
already_spent-none s [] h = tt
already_spent-none s (k ∷ ks) h = elim (Bool-cases (HashSet.contains Bytes-discrete k s)) [
  | inl t ↦ absurd (ground (arith, t, h))
  | inr f ↦ (f, already_spent-none s ks (ground (arith, f, h)))
]

none-already_spent :
    (s : HashSet KeyImage) (ks : List KeyImage) → All (Unspent s) ks → already_spent s ks ≡ none
unfolding already_spent
none-already_spent s [] h = refl
none-already_spent s (k ∷ ks) h = ground (arith, h.0, none-already_spent s ks h.1)

Unspent-empty : (ks : List KeyImage) → All (Unspent HashSet.empty) ks
Unspent-empty [] = tt
Unspent-empty (k ∷ ks) = (HashSet.contains-empty Bytes-discrete k, Unspent-empty ks)

module _ {c : Crates} where
  -- A transaction that the chain takes: its key images are unspent and its proofs hold.
  abbrev pub ValidTx : Chain c → Transaction → Type 0
  ValidTx ch tx =
      All (Unspent ch.spent_key_images) (key_images tx) × (Transaction.verify c tx ≡ true)

  validate-cases :
      (tx : Transaction) (ch : Chain c) → validate_transaction tx ch ≡ none → ValidTx ch tx
  unfolding validate_transaction
  validate-cases tx ch h = elim (Option-cases (already_spent ch.spent_key_images (key_images tx))) [
    | inl n ↦ (already_spent-none ch.spent_key_images (key_images tx) n, ground (arith, n, h))
    | inr (k, e) ↦ absurd (ground (arith, e, h))
  ]

  validate-ok :
      (tx : Transaction) (ch : Chain c) → ValidTx ch tx → validate_transaction tx ch ≡ none
  unfolding validate_transaction
  validate-ok tx ch v =
      ground (arith, none-already_spent ch.spent_key_images (key_images tx) v.0, v.1)

  validate_all-cases :
      (txs : List Transaction) (ch : Chain c) → validate_all txs ch ≡ none → All (ValidTx ch) txs
  unfolding validate_all
  validate_all-cases [] ch h = tt
  validate_all-cases (tx ∷ txs) ch h = elim (Option-cases (validate_transaction tx ch)) [
    | inl n ↦ (validate-cases tx ch n, validate_all-cases txs ch (ground (arith, n, h)))
    | inr (k, e) ↦ absurd (ground (arith, e, h))
  ]

  validate_all-ok :
      (txs : List Transaction) (ch : Chain c) → All (ValidTx ch) txs → validate_all txs ch ≡ none
  unfolding validate_all
  validate_all-ok [] ch v = refl
  validate_all-ok (tx ∷ txs) ch v =
      ground (arith, validate-ok tx ch v.0, validate_all-ok txs ch v.1)

  -- What a block has to be to extend a chain.
  pub record ValidBlock (b : Block) (ch : Chain c) : Type 0 where
    pub next_height : b.header.height ≡ add64 ch.height 1
    pub on_tip : b.header.prev_hash ≡ ch.tip_hash
    pub one_coinbase : coinbase_count b.transactions ≤ 1
    pub coinbase_leads : coinbase_count b.transactions ≡ 1 → coinbase_first b.transactions ≡ true
    pub no_repeats : Distinct (block_key_images b)
    pub valid_txs : All (ValidTx ch) b.transactions

  check_block-ValidBlock : (b : Block) (ch : Chain c) → check_block b ch ≡ none → ValidBlock b ch
  unfolding check_block
  check_block-ValidBlock b ch h = record {
    next_height = ground arith;
    on_tip = ground arith;
    one_coinbase = ground arith;
    coinbase_leads = ground arith;
    no_repeats = (repeated-none HashSet.empty (block_key_images b) (ground arith)).0;
    valid_txs = validate_all-cases b.transactions ch (ground arith);
  }

  pub ValidBlock-check_block :
      (b : Block) (ch : Chain c) → ValidBlock b ch → check_block b ch ≡ none
  unfolding check_block
  ValidBlock-check_block b ch v =
      let fresh =
        Distinct-none HashSet.empty (block_key_images b) v.no_repeats
          (Unspent-empty (block_key_images b)) in
      let txs = validate_all-ok b.transactions ch v.valid_txs in
      elim (Bool-cases (coinbase_first b.transactions)) [
        | inl f ↦ ground (arith, v.next_height, v.on_tip, v.one_coinbase, f, fresh, txs)
        | inr f ↦
            ground (arith, v.next_height, v.on_tip, v.one_coinbase, v.coinbase_leads, f, fresh, txs)
      ]

  pub append_block-none :
      (b : Block) (ch : Chain c)
      → check_block b ch ≡ none
      → append_block b ch ≡ (extend b ch, ok tt)
  unfolding append_block
  append_block-none b ch h = rw (h, append_block)

  pub append_block-some :
      (b : Block) (ch : Chain c) (e : ChainError)
      → check_block b ch ≡ some e
      → append_block b ch ≡ (ch, err e)
  unfolding append_block
  append_block-some b ch e h = rw (h, append_block)

  pub append_block-cases :
      (b : Block) (ch : Chain c)
      → (ValidBlock b ch × (append_block b ch ≡ (extend b ch, ok tt)))
        ⊎ ((e : ChainError) × (check_block b ch ≡ some e) × (append_block b ch ≡ (ch, err e)))
  append_block-cases b ch = elim (Option-cases (check_block b ch)) [
    | inl n ↦ inl (check_block-ValidBlock b ch n, append_block-none b ch n)
    | inr (e, h) ↦ inr (e, h, append_block-some b ch e h)
  ]

  -- `append_block` returns `Ok` exactly for a block of the next height, on the tip, with at most
  -- one coinbase, which comes first, with no repeated key image, and whose transactions have
  -- unspent key images and verify.
  pub append_block-ok_iff :
      (b : Block) (ch : Chain c) → (append_block b ch).1 ≡ ok tt ↔ ValidBlock b ch
  append_block-ok_iff b ch = (
    λ h. elim (append_block-cases b ch) [ inl (v, _) ↦ v | inr (e, _, r) ↦ absurd (grind arith) ],
    λ v. ap (λ p. p.1) (append_block-none b ch (ValidBlock-check_block b ch v)),
  )

  -- A block that is not valid leaves the whole chain, the database included, as it was.
  pub append_block-unchanged :
      (b : Block) (ch : Chain c) → (ValidBlock b ch → ⊥) → (append_block b ch).0 ≡ ch
  append_block-unchanged b ch n = elim (append_block-cases b ch) [
    | inl (v, _) ↦ absurd (n v)
    | inr (e, _, r) ↦ ap (λ p. p.0) r
  ]
