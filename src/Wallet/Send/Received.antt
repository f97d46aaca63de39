-- ===== src/Wallet/Send/Received.antt =====
-- A payment from one wallet to another: `cmd_send`, the node's queue and listing, and the balance of
-- the recipient.
use cipher_x.Prelude.{
  ℕ, ◌<◌, ◌≡◌, refl, ap, true, false, Option, some, List, [], ◌∷◌, ◌++◌, Bytes, length, ltb,
  u64_mod, replicate, arith,
}
use cipher_x.Std.Encoding.{ascii}
use cipher_x.Std.Result.{ok}
use cipher_x.Core.Types.{Transaction, StealthOutput, lite}
use cipher_x.Core.Transaction.{LiteRaw, from_lite_raw}
use cipher_x.Crates.{Crates}
use cipher_x.Crypto.Group.{GroupLaws}
use cipher_x.Crypto.Amount.{AeadLaws, encrypt_amount, decrypt_amount-encrypt_amount}
use cipher_x.Crypto.Stealth.{scan_output}
use cipher_x.Crypto.Stealth.Scan.{output_keys, generate_output-own, scan_output-own, shared}
use cipher_x.Network.Rpc.{BlockOutputRef, Json, RpcRequest, param, handle_send_raw_tx}
use cipher_x.Node.RpcServer.{output_ref}
use cipher_x.Wallet.Data.{WalletData, Codecs, CodecLaws}
use cipher_x.Wallet.Address.{encode_address, derive_keys}
use cipher_x.Wallet.Address.RoundTrip.{
  SizeLaws, strip-encode_address, length-encode_address, parse_cx1_address-encode_address,
}
use cipher_x.Wallet.Client.{or_zero, DetectedOutput, JsonValues, Post}
use cipher_x.Wallet.Scan.{decode_32, secret_of, amount_of, total_of, total_ncip}
use cipher_x.Wallet.Send.{Payload, check_address, payload_for, submit, cmd_send}

-- What the wallet reads of a listed output.
abbrev pub listed : BlockOutputRef → DetectedOutput
listed o = record {
  tx_pubkey = o.tx_pubkey;
  one_time_pubkey = o.one_time_pubkey;
  encrypted_amount = o.encrypted_amount;
  block_height = o.block_height;
  output_index = o.output_index;
  tx_id = o.tx_id;
}

-- What serde_json reads of a payload for a lite transaction.
abbrev pub raw_of : Payload → LiteRaw
raw_of p = record {
  tx_pubkey = p.tx_pubkey;
  one_time_pubkey = p.one_time_pubkey;
  encrypted_amount = p.encrypted_amount;
}

module _ {c : Crates} (t : Codecs) (group : GroupLaws c) (sizes : SizeLaws c) (laws : CodecLaws t)
    (aead : AeadLaws c) where
  open c use {Scalar, compress, point_mul, basepoint, scalar_to_bytes}

  spend_scalar : Bytes → Scalar
  spend_scalar mnemonic = c.scalar_from_wide (c.sha3_512 (ascii "CipherX_spend_v2" ++ mnemonic))

  view_scalar : Bytes → Scalar
  unfolding spend_scalar
  view_scalar mnemonic =
      c.scalar_from_wide
        (c.sha3_512 (ascii "CipherX_view_v2" ++ scalar_to_bytes (spend_scalar mnemonic)))

  public_key : Scalar → Bytes
  public_key x = compress (point_mul x basepoint)

  check_address-own :
      (spend view : Scalar)
      → check_address c t (encode_address c t (public_key spend) (public_key view))
        ≡ ok (public_key spend, public_key view)
  unfolding check_address public_key
  check_address-own spend view =
      let s = public_key spend in
      let v = public_key view in
      let long : ltb (length (encode_address c t s v)) 50 ≡ false = ground (
        arith,
        length-encode_address t sizes laws s v (group.length-compress _) (group.length-compress _),
      ) in
      rw
        (
          strip-encode_address t sizes laws s v,
          long,
          parse_cx1_address-encode_address t sizes laws s v (group.length-compress _)
              (group.length-compress _),
        )
        refl

  length-public_key : (x : Scalar) → length (public_key x) ≡ 32
  unfolding public_key
  length-public_key x = group.length-compress _

  one_time : Scalar → Scalar → Scalar → Bytes
  unfolding output_keys
  one_time spend view r = (output_keys group spend view r 0).one_time_pubkey

  length-one_time : (spend view r : Scalar) → length (one_time spend view r) ≡ 32
  unfolding one_time
  length-one_time spend view r = group.length-compress _

  sent : Scalar → Scalar → Scalar → ℕ → Payload
  sent spend view r amount = record {
    tx_pubkey = t.hex_encode (public_key r);
    one_time_pubkey = t.hex_encode (one_time spend view r);
    encrypted_amount = t.hex_encode (encrypt_amount c amount (shared group view r 0));
    amount_ncip = amount;
  }

  payload_for-own :
      (spend view r : Scalar) (amount : ℕ)
      → payload_for c t (public_key spend, public_key view) amount r
        ≡ some (sent spend view r amount)
  unfolding payload_for sent public_key one_time output_keys
  payload_for-own spend view r amount = rw (generate_output-own group spend view r 0) refl

  scan_output-sent :
      (spend view r : Scalar)
      → scan_output c
          (public_key r)
          (one_time spend view r)
          0
          (scalar_to_bytes view)
          (public_key spend)
        ≡ some (scalar_to_bytes (shared group view r 0))
  unfolding public_key one_time
  scan_output-sent spend view r = scan_output-own group spend view r 0

  -- The output that the node makes of it.
  output_of : Scalar → Scalar → Scalar → ℕ → StealthOutput
  output_of spend view r amount = record {
    one_time_pubkey = one_time spend view r;
    tx_pubkey = public_key r;
    amount_commitment = replicate 32 0;
    encrypted_amount = encrypt_amount c amount (shared group view r 0);
    range_proof = [];
  }

  lite_of : StealthOutput → Bytes → Transaction
  lite_of o json_str = record {
    tx_type = lite;
    inputs = [];
    outputs = o ∷ [];
    fee_commitment = replicate 32 0;
    fee_proof = [];
    extra = json_str;
    version = 1;
  }

  from_lite_raw-sent :
      (from_str : Bytes → Option LiteRaw) (json_str : Bytes) (spend view r : Scalar) (amount : ℕ)
      → from_str json_str ≡ some (raw_of (sent spend view r amount))
      → from_lite_raw from_str t.hex_decode json_str
        ≡ some (lite_of (output_of spend view r amount) json_str)
  unfolding from_lite_raw sent output_of lite_of
  from_lite_raw-sent from_str json_str spend view r amount h =
      rw
        (
          h,
          laws.hex_decode-encode (public_key r),
          length-public_key r,
          laws.hex_decode-encode (one_time spend view r),
          length-one_time spend view r,
          laws.hex_decode-encode (encrypt_amount c amount (shared group view r 0)),
        )
        refl

  -- The listing of the output, read with the recipient's keys.
  amount_of-sent :
      (spend view r : Scalar) (amount height : ℕ) (tx_id : Bytes)
      → amount < u64_mod
      → amount_of c t (scalar_to_bytes view) (public_key spend) (
          listed (
            output_ref t.hex_encode (record {
              output = output_of spend view r amount;
              block_height = height;
              tx_id = tx_id;
              output_index = 0;
            })))
        ≡ some amount
  unfolding amount_of secret_of decode_32 output_ref output_of
  amount_of-sent spend view r amount height tx_id bound =
      rw
        (
          laws.hex_decode-encode (public_key r),
          length-public_key r,
          laws.hex_decode-encode (one_time spend view r),
          length-one_time spend view r,
          scan_output-sent spend view r,
          group.from_canonical-to_bytes (shared group view r 0),
          laws.hex_decode-encode (encrypt_amount c amount (shared group view r 0)),
        )
        (ap (λ o. some (or_zero o))
          (decrypt_amount-encrypt_amount aead amount (shared group view r 0) bound))

  total_of-one :
      (o : DetectedOutput) (v s : Bytes) (amount : ℕ)
      → amount_of c t v s o ≡ some amount
      → amount < u64_mod
      → total_of c t v s 0 (o ∷ []) ≡ amount
  unfolding total_of
  total_of-one o v s amount ha bound = rw (ha, total_of) (omega arith)

  total_ncip-one :
      (w : WalletData) (o : DetectedOutput) (v s : Bytes) (amount : ℕ)
      → decode_32 c t w.private_view ≡ some v
      → decode_32 c t w.public_spend ≡ some s
      → amount_of c t v s o ≡ some amount
      → amount < u64_mod
      → total_ncip c t w (o ∷ []) ≡ amount
  unfolding total_ncip
  total_ncip-one w o v s amount hv hs ha bound =
      rw (hv, hs, total_ncip) (total_of-one o v s amount ha bound)

  decode_32-encode : (b : Bytes) → length b ≡ 32 → decode_32 c t (t.hex_encode b) ≡ some b
  unfolding decode_32
  decode_32-encode b h = rw (laws.hex_decode-encode b, h) refl

  cmd_send-own :
      (j : JsonValues) (to_string : Payload → Bytes) (spend view r : Scalar) (amount : ℕ)
      (post : Post j)
      → cmd_send c t j to_string
          (encode_address c t (public_key spend) (public_key view))
          amount
          r
          true
          post
        ≡ submit c t j to_string post (sent spend view r amount)
  unfolding cmd_send
  cmd_send-own j to_string spend view r amount post =
      rw (check_address-own spend view, cmd_send, payload_for-own spend view r amount) refl

  -- A request whose first parameter is a payload's text in hexadecimal is queued as one transaction.
  handle_send_raw_tx-queued :
      (jn : Json) (from_utf8 : Bytes → Option Bytes) (from_str : Bytes → Option LiteRaw)
      (request : RpcRequest jn) (text : Bytes) (tx : Transaction) (queue : List Transaction)
      → param jn jn.as_str 0 request.params ≡ some (t.hex_encode text)
      → from_utf8 text ≡ some text
      → from_lite_raw from_str t.hex_decode text ≡ some tx
      → (handle_send_raw_tx jn c t.hex_decode from_utf8 from_str request queue).0 ≡ queue ++ tx ∷ []
  unfolding handle_send_raw_tx
  handle_send_raw_tx-queued jn from_utf8 from_str request text tx queue given valid made =
      rw (given, handle_send_raw_tx, laws.hex_decode-encode text, valid, made) refl

  -- A confirmed payment of an amount of 64 bits to the address of a wallet submits a payload. Where
  -- the node reads the wallet's text as the first parameter of the request, finds it to be UTF-8, and
  -- its serde_json reads the fields of the payload from it, the node appends one lite transaction to
  -- its queue, whatever it holds, with no input and one output, and the wallet of the recipient
  -- counts that output, as the node lists it from any block, with exactly the amount. The transaction
  -- carries the text of the payload, in which the amount is in clear.
  pub cmd_send-received :
      (j : JsonValues) (to_string : Payload → Bytes) (from_str : Bytes → Option LiteRaw)
      → ((p : Payload) → from_str (to_string p) ≡ some (raw_of p))
      → (from_utf8 : Bytes → Option Bytes)
      → ((p : Payload) → from_utf8 (to_string p) ≡ some (to_string p))
      → (jn : Json) (request : Bytes → RpcRequest jn)
      → ((text : Bytes) → param jn jn.as_str 0 (request text).params ≡ some text)
      → (mnemonic : Bytes) (amount : ℕ) (r : Scalar) → amount < u64_mod
      → let w = derive_keys c t mnemonic in
        (p : Payload) × (tx : Transaction) × (o : StealthOutput) × ((post : Post j)
          → cmd_send c t j to_string w.address amount r true post ≡ submit c t j to_string post p)
        × ((queue : List Transaction)
            → (handle_send_raw_tx jn c t.hex_decode from_utf8 from_str
                (request (t.hex_encode (to_string p)))
                queue).0
              ≡ queue ++ tx ∷ [])
        × (tx.tx_type ≡ lite)
        × (tx.inputs ≡ [])
        × (tx.outputs ≡ o ∷ [])
        × ((height : ℕ) (tx_id : Bytes)
            → total_ncip c t w (
                listed (
                  output_ref t.hex_encode
                    (record { output = o; block_height = height; tx_id = tx_id; output_index = 0 }))
                ∷ [])
              ≡ amount)
        × (tx.extra ≡ to_string p)
        × (p.amount_ncip ≡ amount)
  unfolding derive_keys spend_scalar view_scalar public_key lite_of sent
  cmd_send-received j to_string from_str parses from_utf8 valid jn request reads mnemonic amount r
        bound =
      let spend = spend_scalar mnemonic in
      let view = view_scalar mnemonic in
      let p = sent spend view r amount in
      let o = output_of spend view r amount in
      (
        p,
        lite_of o (to_string p),
        o,
        cmd_send-own j to_string spend view r amount,
        (λ queue.
            handle_send_raw_tx-queued jn from_utf8 from_str (request (t.hex_encode (to_string p)))
              (to_string p) (lite_of o (to_string p)) queue (reads (t.hex_encode (to_string p)))
              (valid p) (from_lite_raw-sent from_str (to_string p) spend view r amount (parses p))),
        refl,
        refl,
        refl,
        (λ height tx_id.
            total_ncip-one (derive_keys c t mnemonic) _ (scalar_to_bytes view) (public_key spend)
              amount (decode_32-encode (scalar_to_bytes view) (group.length-to_bytes view))
              (decode_32-encode (public_key spend) (length-public_key spend))
              (amount_of-sent spend view r amount height tx_id bound) bound),
        refl,
        refl,
      )
