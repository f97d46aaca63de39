-- ===== src/Network/Frames/RoundTrip.antt =====
-- Messages that are sent and received, src/network/sync_protocol.rs.
use mathlib.Core.List.{append_assoc}
use cipher_x.Prelude.{
  ℕ, zero, suc, inl, inr, ◌⊎◌, ◌+◌, ◌%◌, ◌-◌, ◌<◌, ◌≤◌, ◌≡◌, refl, ap, ◌++◌, true, false, none,
  some, [], ◌∷◌, Bytes, length, ltb, ◌==◌, length-take, Bool-cases, take, if◌then◌else◌, arith,
  length-append, u32_mod,
}
use cipher_x.Std.Encoding.{be_bytes, length-be_bytes, of_be_bytes-be_bytes}
use cipher_x.Std.Result.{ok, err}
use cipher_x.Network.Frames.{
  NetworkMessage, Codec, read_len, read_body, max_frame_size, send_msg, frame_of, decoded,
  decode_body, decode_frame, recv_msg,
}

abbrev pub Sendable : Codec → NetworkMessage → Bytes → Type 0
Sendable c msg bytes =
    (c.serialize msg ≡ some bytes)
    × (c.deserialize bytes ≡ some msg)
    × (0 < length bytes)
    × (length bytes ≤ max_frame_size)

ltb-no : (m n : ℕ) → n ≤ m → ltb m n ≡ false
ltb-no m n h = ground arith

ltb-yes : (m n : ℕ) → m < n → ltb m n ≡ true
ltb-yes m n h = ground arith

eq-no : (m : ℕ) → 0 < m → (m == 0) ≡ false
eq-no m h = ground arith

take-past : (xs ys : Bytes) (n k : ℕ) → n ≡ length xs + k → take n (xs ++ ys) ≡ xs ++ take k ys
take-past [] ys n k h = ap (λ m. take m ys) (omega arith)
take-past (x ∷ xs) ys zero k h = absurd (omega arith)
take-past (x ∷ xs) ys (suc n) k h = ap (◌∷◌ x) (take-past xs ys n k (omega arith))

no_wrap : (n : ℕ) → n ≤ max_frame_size → n % u32_mod ≡ n
no_wrap n h = omega arith

short_or_long : (n m : ℕ) → (n < m) ⊎ (m ≤ n)
short_or_long n m = elim (Bool-cases (ltb n m)) [
  | inl below ↦ inl (ground arith)
  | inr above ↦ inr (ground arith)
]

-- The documented behaviour of `read_exact`: it reads as many bytes as it is asked for, and fails on
-- a stream that ends before.
pub record ReadLaws (c : Codec) : Type 0 where
  pub read_exact-append :
      (n : ℕ) (x y : Bytes) → length x ≡ n → c.read_exact n (x ++ y) ≡ some (x, y)
  pub read_exact-short : (n : ℕ) (x : Bytes) → length x < n → c.read_exact n x ≡ none

module _ (c : Codec) (reads : ReadLaws c) (body : Bytes) (some_bytes : 0 < length body)
    (fits : length body ≤ max_frame_size) where
  abbrev header : Bytes
  header = be_bytes 4 (length body)

  -- A header in front of a stream.
  recv_msg-header :
      (x : Bytes) → recv_msg c (header ++ x) ≡ decode_body c (c.read_exact (length body) x)
  unfolding recv_msg decode_frame
  recv_msg-header x =
      rw
        (
          reads.read_exact-append 4 header x (length-be_bytes 4 (length body)),
          of_be_bytes-be_bytes 4 (length body) (omega arith),
          ltb-no max_frame_size (length body) fits,
          eq-no (length body) some_bytes,
        )
        refl

  length-frame : length (header ++ body) ≡ 4 + length body
  length-frame = omega (arith, length-append header body, length-be_bytes 4 (length body))

  recv_msg-cut :
      (n : ℕ)
      → n < 4 + length body
      → recv_msg c (take n (header ++ body)) ≡ err (if ltb n 4 then read_len else read_body)
  unfolding recv_msg decode_frame decode_body
  recv_msg-cut n h = elim (short_or_long n 4) [
    | inl short ↦
        rw
          (
            ltb-yes n 4 short,
            reads.read_exact-short 4 (take n (header ++ body))
                (omega (arith, length-take n (header ++ body) (omega (arith, length-frame)))),
          )
          refl
    | inr long ↦
        rw
          (
            ltb-no n 4 long,
            take-past header body n (n - 4) (omega (arith, length-be_bytes 4 (length body))),
            recv_msg-header (take (n - 4) body),
            reads.read_exact-short (length body) (take (n - 4) body)
                (omega (arith, length-take (n - 4) body (omega arith))),
          )
          refl
  ]

-- Where `read_exact` reads as documented, a message whose encoding is not empty, has at most 10 MB and is decoded as that message is sent as
-- a frame. At the head of a stream the frame is received as the message, and the rest of the stream
-- is left as it was; a stream that ends within the frame gives an error of the read that it cuts.
pub recv_msg-send_msg :
    (c : Codec) (reads : ReadLaws c) (msg : NetworkMessage) (body : Bytes)
    → Sendable c msg body
    → (frame : Bytes) × (send_msg c msg ≡ ok frame)
      × ((rest : Bytes) → recv_msg c (frame ++ rest) ≡ ok (msg, rest))
      × ((n : ℕ)
          → n < length frame
          → recv_msg c (take n frame) ≡ err (if ltb n 4 then read_len else read_body))
unfolding send_msg frame_of decode_body decoded
recv_msg-send_msg c reads msg body (e, d, some_bytes, fits) = (
  be_bytes 4 (length body) ++ body,
  rw (e, no_wrap (length body) fits, ltb-no max_frame_size (length body) fits) refl,
  (λ rest.
      rw
        (
          append_assoc (be_bytes 4 (length body)) body rest,
          recv_msg-header c reads body some_bytes fits (body ++ rest),
          reads.read_exact-append (length body) body rest refl,
          d,
        )
        refl),
  λ n h. recv_msg-cut c reads body some_bytes fits n (
      omega
        (arith, h, length-append (be_bytes 4 (length body)) body, length-be_bytes 4 (length body))),
)
