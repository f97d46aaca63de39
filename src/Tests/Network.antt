-- ===== src/Tests/Network.antt =====
-- Peers and synchronisation.
use cipher_x.Prelude.{
  ◌<◌, ◌++◌, length, take, drop, length-append, take-append, drop-append, Option, ltb,
  if◌then◌else◌, some, ℕ, ◌≤◌, ◌≡◌, refl, true, false, none, List, [], ◌∷◌, arith, Bytes,
}
use cipher_x.Network.Sync.{
  SyncState, SyncEvent, learns, applies, sync_run, sync_run-new, update_target,
  update_target_behind, fast,
}
use cipher_x.Std.HashMap
use cipher_x.Network.P2p.{GossipMessage, P2PNode, Wire, on_message, topic_blocks, default_config}
use cipher_x.Network.P2p
use cipher_x.Network.P2p.Dedup.{Delivery, receive_all, on_message-once}
use cipher_x.Network.Sync
use cipher_x.Std.Result.{ok, err}
use cipher_x.Network.Frames.{bye, Codec, read_len, read_body, send_msg, recv_msg}
use cipher_x.Network.Frames.RoundTrip.{ReadLaws, recv_msg-send_msg}

abbrev peer : Bytes
peer = 1 ∷ []

abbrev events : List SyncEvent
events = learns 12 peer ∷ applies 11 ∷ applies 12 ∷ []

abbrev behind : SyncState
behind = update_target 12 peer (Sync.new 10)

abbrev ahead : SyncState
ahead = record (Sync.new 10) { local_height = 15 }

abbrev silent : Wire
silent = record {
  sha3_256 = λ b. b;
  serialize_block = λ b. none;
  serialize_tx = λ t. none;
  serialize_vote = λ v. none;
  deserialize_block = λ b. none;
  deserialize_tx = λ b. none;
  deserialize_vote = λ b. none;
}

abbrev delivery : Bytes → ℕ → Delivery
delivery id time = record {
  msg = record { topic = topic_blocks; payload = []; message_id = id; timestamp_ms = 500 };
  sender = peer;
  now = time;
  now_ms = 600;
}

on_message-once_example :
    on_message silent (delivery (3 ∷ []) 90000).msg peer 90000 600 (
      receive_all silent
        (delivery (3 ∷ []) 100 ∷ delivery (4 ∷ []) 30000 ∷ [])
        (P2p.new default_config))
    ≡ receive_all silent
        (delivery (3 ∷ []) 100 ∷ delivery (4 ∷ []) 30000 ∷ [])
        (P2p.new default_config)
unfolding P2p.is_fresh P2p.new HashMap.contains_key
on_message-once_example =
    on_message-once silent (delivery (3 ∷ []) 100) (delivery (3 ∷ []) 90000)
      (delivery (4 ∷ []) 30000 ∷ []) (P2p.new default_config) refl refl refl (omega arith, tt)

abbrev goodbye : Bytes
goodbye = 6 ∷ 0 ∷ 0 ∷ 0 ∷ []

ltb-no : (m n : ℕ) → n ≤ m → ltb m n ≡ false
ltb-no m n h = ground arith

ltb-yes : (m n : ℕ) → m < n → ltb m n ≡ true
ltb-yes m n h = ground arith

abbrev read_bytes : ℕ → Bytes → Option (Bytes × Bytes)
read_bytes n stream = if ltb (length stream) n then none else some (take n stream, drop n stream)

abbrev farewell : Codec
farewell = record {
  serialize = λ msg. some goodbye;
  deserialize = λ bytes. some bye;
  read_exact = read_bytes;
}

farewell_reads : ReadLaws farewell
farewell_reads = record {
  read_exact-append = λ n x y h.
      rw
        (
          ltb-no (length (x ++ y)) n (omega (arith, length-append x y)),
          take-append n x y h,
          drop-append n x y h,
        )
        refl;
  read_exact-short = λ n x h. rw (ltb-yes (length x) n h) refl;
}

recv_msg-send_msg_example :
    (frame : Bytes) × (send_msg farewell bye ≡ ok frame)
    × ((rest : Bytes) → recv_msg farewell (frame ++ rest) ≡ ok (bye, rest))
    × ((n : ℕ)
        → n < length frame
        → recv_msg farewell (take n frame) ≡ err (if ltb n 4 then read_len else read_body))
recv_msg-send_msg_example =
    recv_msg-send_msg farewell farewell_reads bye goodbye (refl, refl, omega arith, omega arith)
