-- ===== src/Node/Producer/Run.antt =====
-- A single validator with its RPC server: requests to send transactions and ticks in any order,
-- src/main.rs with src/network/rpc.rs.
use mathlib.Core.List.{append_assoc, append-nil}
use cipher_x.Prelude.{
  ℕ, suc, ◌+◌, ◌<◌, ◌≡◌, refl, sym, ap, ◌∙◌, subst, Option, none, some, List, [], ◌∷◌, ◌++◌, Bytes,
  All, All-append, Option-cases, inl, inr, arith, u64_mod, drop,
}
use cipher_x.Std.Options.{◌>>=◌, OnSome, OnSome->>=, no_result, result}
use cipher_x.Core.Types.{Transaction}
use cipher_x.Core.Transaction.{LiteRaw, lite_transaction, array_32, from_lite_raw}
use cipher_x.Crates.{Crates}
use cipher_x.Crypto.Group.{GroupLaws}
use cipher_x.Network.Rpc.{Json, RpcRequest, param, handle_send_raw_tx}
use cipher_x.Node.Producer.{Node, Draws, Sent, sent_vote, gossip_block, push_block, tick}
use cipher_x.Node.Producer.Valid.{Plain}
use cipher_x.Node.Producer.Grows.{Producing, tick-extends}

-- The transactions of the pushed blocks, without their coinbases.
pub included : List Sent → List Transaction
included [] = []
included (push_block b ∷ rest) = drop 1 b.transactions ++ included rest
included (gossip_block b ∷ rest) = included rest
included (sent_vote v ∷ rest) = included rest

lite_transaction-Plain :
    (tx_pk ot_pk enc_amt json_str : Bytes) → Plain (lite_transaction tx_pk ot_pk enc_amt json_str)
unfolding lite_transaction
lite_transaction-Plain tx_pk ot_pk enc_amt json_str = record { is_lite = refl; no_inputs = refl }

from_lite_raw-OnSome :
    (from_str : Bytes → Option LiteRaw) (decode : Bytes → Option Bytes) (json_str : Bytes)
    → OnSome Plain (from_lite_raw from_str decode json_str)
unfolding from_lite_raw
from_lite_raw-OnSome from_str decode json_str = OnSome->>= (from_str json_str) _ λ raw.
    OnSome->>= (decode raw.tx_pubkey) _ λ tx_bytes. OnSome->>= (array_32 tx_bytes) _ λ tx_pk.
      OnSome->>= (decode raw.one_time_pubkey) _ λ ot_bytes.
        OnSome->>= (array_32 ot_bytes) _ λ ot_pk.
          OnSome->>= (decode raw.encrypted_amount) _
            λ enc. result _ (lite_transaction-Plain tx_pk ot_pk enc json_str)

OnSome-all : (o : Option Transaction) → OnSome Plain o → (tx : Transaction) → o ≡ some tx → Plain tx
OnSome-all none no_result tx e = absurd (ground arith)
OnSome-all (some a) (result _ h) tx e = subst Plain (some_inj a tx e) h
  where
    some_inj : (a b : Transaction) → ◌≡◌ {A = Option Transaction} (some a) (some b) → a ≡ b
    some_inj a b e = cc

module _ (c : Crates) (j : Json) (hex_decode : Bytes → Option Bytes)
    (from_utf8 : Bytes → Option Bytes) (from_str : Bytes → Option LiteRaw) where
  -- A request to send a transaction, or a tick with its clock and random scalars.
  pub data Event : Type 0 where
    send : RpcRequest j → Event
    ticks : ℕ → Draws c → Event

  -- What a request adds to the queue.
  unfoldable pub submitted : RpcRequest j → List Transaction
  submitted request = (handle_send_raw_tx j c hex_decode from_utf8 from_str request []).0

  queued :
      (request : RpcRequest j) (queue : List Transaction)
      → ((handle_send_raw_tx j c hex_decode from_utf8 from_str request queue).0
          ≡ queue ++ submitted request)
        × All Plain (submitted request)
  unfolding submitted handle_send_raw_tx
  queued request queue = elim (Option-cases (param j j.as_str 0 request.params)) [
    | inl e ↦ rw (e, submitted, handle_send_raw_tx) (sym (append-nil queue), tt)
    | inr (raw_hex, e) ↦ elim (Option-cases (hex_decode raw_hex >>= from_utf8)) [
      | inl f ↦ rw (e, submitted, handle_send_raw_tx, f) (sym (append-nil queue), tt)
      | inr (text, f) ↦ elim (Option-cases (from_lite_raw from_str hex_decode text)) [
        | inl g ↦ rw (e, submitted, handle_send_raw_tx, f, g) (sym (append-nil queue), tt)
        | inr (tx, g) ↦
            rw (e, submitted, handle_send_raw_tx, f, g)
              (refl, (OnSome-all _ (from_lite_raw-OnSome from_str hex_decode text) tx g, tt))
      ]
    ]
  ]

  unfoldable pub step : Event → Node c → Option (Node c × List Sent)
  step (send request) n = some (
    record n {
      mempool = (handle_send_raw_tx j c hex_decode from_utf8 from_str request n.mempool).0;
    },
    [],
  )
  step (ticks now draws) n = tick now draws n

  unfoldable pub run : List Event → Node c → Option (Node c × List Sent)
  unfolding step
  run [] n = some (n, [])
  run (e ∷ es) n = do (n1, sent) ← step e n; (n2, later) ← run es n1; some (n2, sent ++ later)

  abbrev pub tick_count : List Event → ℕ
  tick_count [] = 0
  tick_count (send request ∷ es) = tick_count es
  tick_count (ticks now draws ∷ es) = suc (tick_count es)

  abbrev pub all_submitted : List Event → List Transaction
  all_submitted [] = []
  all_submitted (send request ∷ es) = submitted request ++ all_submitted es
  all_submitted (ticks now draws ∷ es) = all_submitted es

  send-Producing :
      (request : RpcRequest j) (n : Node c)
      → Producing n
      → Producing (record n {
        mempool = (handle_send_raw_tx j c hex_decode from_utf8 from_str request n.mempool).0;
      })
  send-Producing request n p =
      let (grows, plain) = queued request n.mempool in
      record {
        us = p.us;
        commitment = p.commitment;
        times = p.times;
        at_height = p.at_height;
        evidence = p.evidence;
        at_step = p.at_step;
        proposed = p.proposed;
        valid = p.valid;
        since = p.since;
        alone = p.alone;
        validating = p.validating;
        plain =
            subst (All Plain) (sym grows)
              (All-append Plain n.mempool (submitted request) p.plain plain);
      }

  -- With the laws of the group, a single validator whose queue has lite transactions only never
  -- stops: whatever requests to send and ticks come, in any order, the chain grows by one block for
  -- each tick, up to 64 bits; and the transactions of the pushed blocks after their coinbases, with
  -- those that still wait, are those that waited before and then all accepted ones, each once and
  -- in order.
  pub run-grows :
      GroupLaws c
      → (es : List Event) (n : Node c) → Producing n
      → n.chain.height + tick_count es < u64_mod
      → (n' : Node c) × (sent : List Sent) × (run es n ≡ some (n', sent))
        × (n'.chain.height ≡ n.chain.height + tick_count es)
        × (included sent ++ n'.mempool ≡ n.mempool ++ all_submitted es)
        × Producing n'
  unfolding run step included
  run-grows laws [] n p bound = (n, [], refl, omega arith, sym (append-nil n.mempool), p)
  run-grows laws (send request ∷ es) n p bound =
      let (n', sent, ran, height, kept, p') =
        run-grows laws es _ (send-Producing request n p) bound in
      (
        n',
        sent,
        rw ran refl,
        height,
        kept
            ∙ ap (λ l. l ++ all_submitted es) (queued request n.mempool).0
            ∙ append_assoc n.mempool (submitted request) (all_submitted es),
        p',
      )
  run-grows laws (ticks now draws ∷ es) n p bound =
      let (n1, b, cb, ticked, _, txs, _, grown, empty, p1) = tick-extends laws now draws n p in
      let one : n1.chain.height ≡ n.chain.height + 1 = omega (arith, grown) in
      let (n', sent, ran, height, kept, p') = run-grows laws es n1 p1 (omega (arith, one)) in
      (
        n',
        gossip_block b ∷ push_block b ∷ sent,
        rw (ticked, ran) refl,
        omega (arith, one, height),
        append_assoc (drop 1 b.transactions) (included sent) n'.mempool
            ∙ ap (λ l. l ++ (included sent ++ n'.mempool)) (ap (drop 1) txs)
            ∙ ap (λ l. n.mempool ++ l) (kept ∙ ap (λ l. l ++ all_submitted es) empty),
        p',
      )
