-- ===== src/Network/P2p.antt =====
-- src/network/p2p.rs: gossip with deduplication. Times are milliseconds, arguments of the operations;
-- the events sent to the node are a list, oldest first; logging is left out.
pub mod Dedup
use cipher_x.Prelude.{
  ℕ, ◌+◌, ◌-◌, ◌++◌, Bool, true, false, ◌||◌, not, Option, none, some, List, [], ◌∷◌, Bytes,
  Bytes-discrete, length, ltb, leb, if◌then◌else◌, is_yes, add64, add32,
}
use cipher_x.Std.Encoding.{ascii}
use cipher_x.Std.HashMap.{HashMap, empty}
use cipher_x.Std.HashMap
use cipher_x.Std.Result.{Result, ok, err}
use cipher_x.Core.Types.{Block, Transaction}
use cipher_x.Consensus.Vote.{Vote}
use cipher_x.Network.Peer.{PeerInfo}

abbrev pub topic_blocks : Bytes
topic_blocks = ascii "/cipherx/blocks/1.0.0"

abbrev pub topic_txs : Bytes
topic_txs = ascii "/cipherx/txs/1.0.0"

abbrev pub topic_consensus : Bytes
topic_consensus = ascii "/cipherx/consensus/1.0.0"

pub record BlockRequest : Type 0 where
  pub from_height : ℕ
  pub to_height : ℕ
  pub request_id : ℕ

pub record GossipMessage : Type 0 where
  pub topic : Bytes
  pub payload : Bytes
  pub message_id : Bytes
  pub timestamp_ms : ℕ

pub data NetworkEvent : Type 0 where
  block_received : Block → Bytes → NetworkEvent
  tx_received : Transaction → Bytes → NetworkEvent
  vote_received : Vote → Bytes → NetworkEvent
  peer_connected : PeerInfo → NetworkEvent
  peer_disconnected : Bytes → NetworkEvent
  sync_requested : BlockRequest → Bytes → NetworkEvent

pub record P2PConfig : Type 0 where
  pub max_peers : ℕ
  pub min_peers : ℕ
  pub gossip_fanout : ℕ
  pub max_message_size : ℕ
  pub dedup_window_ms : ℕ
  pub seed_nodes : List Bytes
  pub listen_port : ℕ

abbrev pub default_config : P2PConfig
default_config = record {
  max_peers = 50;
  min_peers = 8;
  gossip_fanout = 6;
  max_message_size = 10485760;
  dedup_window_ms = 30000;
  seed_nodes = [];
  listen_port = 9152;
}

-- The bincode and sha3 functions that the network calls.
pub record Wire : Type 0 where
  pub sha3_256 : Bytes → Bytes
  pub serialize_block : Block → Option Bytes
  pub serialize_tx : Transaction → Option Bytes
  pub serialize_vote : Vote → Option Bytes
  pub deserialize_block : Bytes → Option Block
  pub deserialize_tx : Bytes → Option Transaction
  pub deserialize_vote : Bytes → Option Vote

-- The deduplication cache; `seen` has the time of each message.
pub record MessageCache : Type 0 where
  pub seen : HashMap Bytes ℕ
  pub max_age : ℕ
  pub inserts_since_evict : ℕ

abbrev pub evict_every : ℕ
evict_every = 128

unfoldable pub new_cache : ℕ → MessageCache
new_cache max_age_ms = record { seen = empty; max_age = max_age_ms; inserts_since_evict = 0 }

-- The part of `insert` behind the guard.
unfoldable pub remember : Bytes → ℕ → MessageCache → MessageCache
remember id now cache =
    let count = add32 cache.inserts_since_evict 1 in
    let full = leb evict_every count in
    let seen =
      if full
      then HashMap.retain Bytes-discrete (λ t. ltb (now - t) cache.max_age) cache.seen
      else cache.seen in
    record cache {
      seen = HashMap.insert Bytes-discrete id now seen;
      inserts_since_evict = if full then 0 else count;
    }

-- `true` if the message is new.
unfoldable pub insert : Bytes → ℕ → MessageCache → MessageCache × Bool
unfolding remember
insert id now cache =
    if HashMap.contains_key Bytes-discrete id cache.seen
    then (cache, false)
    else (remember id now cache, true)

pub data P2PError : Type 0 where
  message_too_large not_started serialize_error : P2PError

pub record P2PNode : Type 0 where
  pub config : P2PConfig
  pub peers : HashMap Bytes PeerInfo
  pub message_cache : MessageCache
  pub events : List NetworkEvent
  pub running : Bool
  pub messages_sent : ℕ
  pub messages_recv : ℕ

unfoldable pub new : P2PConfig → P2PNode
unfolding new_cache
new config = record {
  config = config;
  peers = empty;
  message_cache = new_cache config.dedup_window_ms;
  events = [];
  running = false;
  messages_sent = 0;
  messages_recv = 0;
}

unfoldable pub start : P2PNode → P2PNode × Result P2PError (Unit {0})
start node = (record node { running = true }, ok tt)

unfoldable pub is_fresh : ℕ → ℕ → GossipMessage → Bool
is_fresh max_age_ms now_ms msg = ltb (now_ms - msg.timestamp_ms) max_age_ms

unfoldable pub on_peer_connected : PeerInfo → P2PNode → P2PNode
on_peer_connected info node = record node {
  peers = HashMap.insert Bytes-discrete info.peer_id info node.peers;
  events = node.events ++ peer_connected info ∷ [];
}

unfoldable pub on_peer_disconnected : Bytes → P2PNode → P2PNode
on_peer_disconnected peer_id node = record node {
  peers = HashMap.remove Bytes-discrete peer_id node.peers;
  events = node.events ++ peer_disconnected peer_id ∷ [];
}

unfoldable pub peer_count : P2PNode → ℕ
peer_count node = HashMap.len node.peers

unfoldable pub needs_more_peers : P2PNode → Bool
needs_more_peers node = ltb (HashMap.len node.peers) node.config.min_peers

module _ (w : Wire) where
  unfoldable pub new_message : Bytes → Bytes → ℕ → GossipMessage
  new_message topic payload now_ms = record {
    topic = topic;
    payload = payload;
    message_id = w.sha3_256 (payload ++ topic);
    timestamp_ms = now_ms;
  }

  -- `now` is the monotonic clock and `now_ms` the time of day.
  unfoldable pub gossip : Bytes → Bytes → ℕ → ℕ → P2PNode → P2PNode × Result P2PError (Unit {0})
  unfolding new_message insert
  gossip topic payload now now_ms node =
      if not node.running
      then (node, err not_started)
      else if ltb node.config.max_message_size (length payload)
      then (node, err message_too_large)
      else (let msg = new_message topic payload now_ms in
          let (cache, fresh) = insert msg.message_id now node.message_cache in
          let node' = record node { message_cache = cache } in
          if fresh
          then (record node' { messages_sent = add64 node.messages_sent 1 }, ok tt)
          else (node', ok tt))

  -- A payload that may fail to serialize.
  gossip_serialized : Bytes → Option Bytes → ℕ → ℕ → P2PNode → P2PNode × Result P2PError (Unit {0})
  unfolding gossip
  gossip_serialized topic none now now_ms node = (node, err serialize_error)
  gossip_serialized topic (some payload) now now_ms node = gossip topic payload now now_ms node

  unfoldable pub broadcast_block : Block → ℕ → ℕ → P2PNode → P2PNode × Result P2PError (Unit {0})
  unfolding gossip_serialized
  broadcast_block block = gossip_serialized topic_blocks (w.serialize_block block)

  unfoldable pub broadcast_tx : Transaction → ℕ → ℕ → P2PNode → P2PNode × Result P2PError (Unit {0})
  unfolding gossip_serialized
  broadcast_tx tx = gossip_serialized topic_txs (w.serialize_tx tx)

  unfoldable pub broadcast_vote : Vote → ℕ → ℕ → P2PNode → P2PNode × Result P2PError (Unit {0})
  unfolding gossip_serialized
  broadcast_vote vote = gossip_serialized topic_consensus (w.serialize_vote vote)

  event_of : {A : Type 0} → (A → Bytes → NetworkEvent) → Bytes → Option A → List NetworkEvent
  event_of f sender none = []
  event_of f sender (some a) = f a sender ∷ []

  -- The event that a message is parsed into, if any.
  unfoldable pub parse : GossipMessage → Bytes → List NetworkEvent
  unfolding event_of
  parse msg sender =
      if is_yes (Bytes-discrete msg.topic topic_blocks)
      then event_of block_received sender (w.deserialize_block msg.payload)
      else if is_yes (Bytes-discrete msg.topic topic_txs)
      then event_of tx_received sender (w.deserialize_tx msg.payload)
      else if is_yes (Bytes-discrete msg.topic topic_consensus)
      then event_of vote_received sender (w.deserialize_vote msg.payload)
      else []

  unfoldable pub on_message : GossipMessage → Bytes → ℕ → ℕ → P2PNode → P2PNode
  unfolding is_fresh insert parse
  on_message msg sender now now_ms node =
      if not (is_fresh node.config.dedup_window_ms now_ms msg)
      then node
      else (let (cache, fresh) = insert msg.message_id now node.message_cache in
          let node' = record node { message_cache = cache } in
          if not fresh then node' else (record node' {
            messages_recv = add64 node.messages_recv 1;
            events = node.events ++ parse msg sender;
          }))
