-- ===== src/Network/P2p/Dedup.antt =====
-- The deduplication of src/network/p2p.rs over the messages that a node receives.
use cipher_x.Prelude.{
  ℕ, ◌-◌, ◌<◌, ◌≡◌, refl, sym, ap, ◌∙◌, ite, Bool, true, false, some, List, [], ◌∷◌, Bytes,
  Bytes-discrete, All, ltb, leb, if◌then◌else◌, Bool-cases, inl, inr, arith, add32,
}
use cipher_x.Std.HashMap.{HashMap, get-insert, get-insert_self, get-retain}
use cipher_x.Std.HashMap
use cipher_x.Network.P2p.{
  GossipMessage, MessageCache, P2PNode, Wire, evict_every, remember, insert, is_fresh, on_message,
}

pub record Delivery : Type 0 where
  pub msg : GossipMessage
  pub sender : Bytes
  pub now : ℕ
  pub now_ms : ℕ

contains-of_get :
    (id : Bytes) (t : ℕ) (m : HashMap Bytes ℕ)
    → HashMap.get Bytes-discrete id m ≡ some t
    → HashMap.contains_key Bytes-discrete id m ≡ true
unfolding HashMap.contains_key
contains-of_get id t m e = rw (HashMap.contains_key, e) refl

if_get :
    (id : Bytes) (t : ℕ) (b : Bool) (m n : HashMap Bytes ℕ)
    → HashMap.get Bytes-discrete id m ≡ some t
    → HashMap.get Bytes-discrete id n ≡ some t
    → HashMap.get Bytes-discrete id (if b then m else n) ≡ some t
if_get id t true m n h k = h
if_get id t false m n h k = k

ite_no : {A P : Type 0} {y z : A} (d : Dec P) (x : A) → (P → ⊥) → y ≡ z → ite d x y ≡ z
ite_no (yes p) x h e = absurd (h p)
ite_no (no _) x h e = e

clash : true ≡ false → ⊥
clash e = ground arith

-- What is stored stays while it is young enough for an eviction.
remember-keeps :
    (id j : Bytes) (t now : ℕ) (cache : MessageCache)
    → HashMap.get Bytes-discrete id cache.seen ≡ some t
    → HashMap.contains_key Bytes-discrete j cache.seen ≡ false
    → now - t < cache.max_age
    → HashMap.get Bytes-discrete id (remember j now cache).seen ≡ some t
unfolding remember
remember-keeps id j t now cache e new_j young =
    let full = leb evict_every (add32 cache.inserts_since_evict 1) in
    let young_seen = HashMap.retain Bytes-discrete (λ u. ltb (now - u) cache.max_age) cache.seen in
    let retained =
      get-retain Bytes-discrete (λ u. ltb (now - u) cache.max_age) id t cache.seen e
        (ground arith) in
    get-insert Bytes-discrete j id now (if full then young_seen else cache.seen)
    ∙ ite_no (Bytes-discrete j id) (some now)
        (λ same. clash (
          sym (contains-of_get id t cache.seen e)
          ∙ ap (λ k. HashMap.contains_key Bytes-discrete k cache.seen) (sym same)
          ∙ new_j))
        (if_get id t full young_seen cache.seen retained e)

insert-keeps :
    (id j : Bytes) (t now : ℕ) (cache : MessageCache)
    → HashMap.get Bytes-discrete id cache.seen ≡ some t
    → now - t < cache.max_age
    → (HashMap.get Bytes-discrete id (insert j now cache).0.seen ≡ some t)
      × ((insert j now cache).0.max_age ≡ cache.max_age)
unfolding insert remember
insert-keeps id j t now cache e young =
    elim (Bool-cases (HashMap.contains_key Bytes-discrete j cache.seen)) [
      | inl old ↦ rw (insert, old) (e, refl)
      | inr new ↦ rw (insert, new) (remember-keeps id j t now cache e new young, refl)
    ]

module _ (w : Wire) where
  on_message-seen :
      (d : Delivery) (t : ℕ) (node : P2PNode)
      → HashMap.get Bytes-discrete d.msg.message_id node.message_cache.seen ≡ some t
      → on_message w d.msg d.sender d.now d.now_ms node ≡ node
  unfolding on_message insert
  on_message-seen d t node e =
      elim (Bool-cases (is_fresh node.config.dedup_window_ms d.now_ms d.msg)) [
        | inl fresh ↦
            rw
              (
                on_message,
                fresh,
                insert,
                contains-of_get d.msg.message_id t node.message_cache.seen e,
              )
              refl
        | inr stale ↦ rw (on_message, stale) refl
      ]

  on_message-keeps :
      (id : Bytes) (t : ℕ) (d : Delivery) (node : P2PNode)
      → HashMap.get Bytes-discrete id node.message_cache.seen ≡ some t
      → d.now - t < node.message_cache.max_age
      → let node' = on_message w d.msg d.sender d.now d.now_ms node in
        (HashMap.get Bytes-discrete id node'.message_cache.seen ≡ some t)
        × (node'.message_cache.max_age ≡ node.message_cache.max_age)
  unfolding on_message
  on_message-keeps id t d node e young =
      let kept = insert-keeps id d.msg.message_id t d.now node.message_cache e young in
      elim (Bool-cases (is_fresh node.config.dedup_window_ms d.now_ms d.msg)) [
        | inr stale ↦ rw (on_message, stale) (e, refl)
        | inl fresh ↦ elim (Bool-cases (insert d.msg.message_id d.now node.message_cache).1) [
          | inl new ↦ rw (on_message, fresh, new) kept
          | inr old ↦ rw (on_message, fresh, old) kept
        ]
      ]

  on_message-takes :
      (d : Delivery) (node : P2PNode)
      → is_fresh node.config.dedup_window_ms d.now_ms d.msg ≡ true
      → HashMap.contains_key Bytes-discrete d.msg.message_id node.message_cache.seen ≡ false
      → let node' = on_message w d.msg d.sender d.now d.now_ms node in
        (HashMap.get Bytes-discrete d.msg.message_id node'.message_cache.seen ≡ some d.now)
        × (node'.message_cache.max_age ≡ node.message_cache.max_age)
  unfolding on_message insert remember
  on_message-takes d node fresh new =
      rw (on_message, fresh, insert, new)
        (get-insert_self Bytes-discrete d.msg.message_id d.now _, refl)

  unfoldable pub receive_all : List Delivery → P2PNode → P2PNode
  unfolding on_message
  receive_all [] node = node
  receive_all (d ∷ ds) node = receive_all ds (on_message w d.msg d.sender d.now d.now_ms node)

  receive_all-keeps :
      (id : Bytes) (t age : ℕ) (ds : List Delivery) (node : P2PNode)
      → HashMap.get Bytes-discrete id node.message_cache.seen ≡ some t
      → node.message_cache.max_age ≡ age
      → All (λ d. d.now - t < age) ds
      → HashMap.get Bytes-discrete id (receive_all ds node).message_cache.seen ≡ some t
  unfolding receive_all
  receive_all-keeps id t age [] node e a h = e
  receive_all-keeps id t age (d ∷ ds) node e a h =
      let young : d.now - t < node.message_cache.max_age = rw a h.0 in
      let (e', a') = on_message-keeps id t d node e young in
      receive_all-keeps id t age ds (on_message w d.msg d.sender d.now d.now_ms node) e' (a' ∙ a)
        h.1

  -- Once a node has taken a message, which was fresh and whose id was not in its cache, and while
  -- it receives any others less than the maximal age later, a message with the same id, from
  -- whomever and whenever, changes nothing: it is neither counted nor passed on as an event.
  pub on_message-once :
      (first again : Delivery) (later : List Delivery) (node : P2PNode)
      → is_fresh node.config.dedup_window_ms first.now_ms first.msg ≡ true
      → HashMap.contains_key Bytes-discrete first.msg.message_id node.message_cache.seen ≡ false
      → again.msg.message_id ≡ first.msg.message_id
      → All (λ d. d.now - first.now < node.message_cache.max_age) later
      → let node' = receive_all (first ∷ later) node in
        on_message w again.msg again.sender again.now again.now_ms node' ≡ node'
  unfolding receive_all
  on_message-once first again later node fresh new same young =
      let (taken, age) = on_message-takes first node fresh new in
      let kept =
        receive_all-keeps first.msg.message_id first.now node.message_cache.max_age later
          (on_message w first.msg first.sender first.now first.now_ms node) taken age young in
      on_message-seen again first.now (receive_all (first ∷ later) node) (
        ap
          (λ id.
            HashMap.get Bytes-discrete id (receive_all (first ∷ later) node).message_cache.seen)
          same
        ∙ kept)
