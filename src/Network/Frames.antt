-- ===== src/Network/Frames.antt =====
-- src/network/sync_protocol.rs: the framing of messages on a stream. The stream is the bytes that
-- arrive before it ends; errors of writing are left out, and bincode and the reads of tokio are parameters.
pub mod RoundTrip
use cipher_x.Prelude.{
  ℕ, ◌*◌, ◌%◌, ◌++◌, Bool, true, false, Option, none, some, List, Bytes, length, ltb, ◌==◌,
  if◌then◌else◌, u32_mod,
}
use cipher_x.Std.Encoding.{be_bytes, of_be_bytes}
use cipher_x.Std.Result.{Result, ok, err}
use cipher_x.Core.Types.{Block, BlockHash, Transaction}
use cipher_x.Consensus.Vote.{Vote}
use cipher_x.Network.P2p.{BlockRequest}

pub record BlockResponse : Type 0 where
  pub request_id : ℕ
  pub blocks : List Block

pub record HelloMessage : Type 0 where
  pub version : Bytes
  pub height : ℕ
  pub tip_hash : BlockHash
  pub protocols : List Bytes
  pub onion_address : Option Bytes

pub data NetworkMessage : Type 0 where
  new_block : Block → NetworkMessage
  new_tx : Transaction → NetworkMessage
  consensus_vote : Vote → NetworkMessage
  block_request : BlockRequest → NetworkMessage
  block_response : BlockResponse → NetworkMessage
  hello : HelloMessage → NetworkMessage
  bye : NetworkMessage

-- bincode, for messages, and `AsyncReadExt::read_exact` of tokio: the bytes and the rest of the
-- stream, or no value at an error.
pub record Codec : Type 0 where
  pub serialize : NetworkMessage → Option Bytes
  pub deserialize : Bytes → Option NetworkMessage
  pub read_exact : ℕ → Bytes → Option (Bytes × Bytes)

pub data FrameError : Type 0 where
  serialize_failed read_len read_body empty_frame deserialize_failed : FrameError
  frame_too_large : ℕ → FrameError

abbrev pub max_frame_size : ℕ
max_frame_size = 10 * 1024 * 1024

unfoldable pub frame_of : Option Bytes → Result FrameError Bytes
frame_of none = err serialize_failed
frame_of (some bytes) =
    let len = length bytes % u32_mod in
    if ltb max_frame_size len then err (frame_too_large len) else ok (be_bytes 4 len ++ bytes)

-- The bytes that are written.
unfoldable pub send_msg : Codec → NetworkMessage → Result FrameError Bytes
unfolding frame_of
send_msg c msg = frame_of (c.serialize msg)

unfoldable pub decoded : Bytes → Option NetworkMessage → Result FrameError (NetworkMessage × Bytes)
decoded rest none = err deserialize_failed
decoded rest (some msg) = ok (msg, rest)

unfoldable pub decode_body :
    Codec → Option (Bytes × Bytes) → Result FrameError (NetworkMessage × Bytes)
unfolding decoded
decode_body c none = err read_body
decode_body c (some (buf, rest)) = decoded rest (c.deserialize buf)

unfoldable pub decode_frame :
    Codec → Option (Bytes × Bytes) → Result FrameError (NetworkMessage × Bytes)
unfolding decode_body
decode_frame c none = err read_len
decode_frame c (some (len_buf, stream)) =
    let len = of_be_bytes len_buf in
    if ltb max_frame_size len
    then err (frame_too_large len)
    else if len == 0
    then err empty_frame
    else decode_body c (c.read_exact len stream)

-- The message, and what is left of the stream.
unfoldable pub recv_msg : Codec → Bytes → Result FrameError (NetworkMessage × Bytes)
unfolding decode_frame
recv_msg c stream = decode_frame c (c.read_exact 4 stream)
