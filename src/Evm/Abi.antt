-- ===== src/Evm/Abi.antt =====
-- src/evm/abi.rs: encodings of words, and calldata.
use cipher_x.Prelude.{
  ℕ, zero, suc, ◌+◌, ◌*◌, ◌^◌, ◌<◌, ◌≡◌, refl, ap, ◌∙◌, Bool, true, false, not, Option, none, some,
  List, [], ◌∷◌, ◌++◌, Bytes, length, take, drop, replicate, get_elem?, ltb, if◌then◌else◌, arith,
  ◌==◌, length-append, take-append, drop-append, All,
}
use cipher_x.Std.Encoding.{be_bytes, of_be_bytes, of_be_bytes-be_bytes, length-be_bytes}
use cipher_x.Crates.{Crates}

-- The first four bytes of the Keccak hash of the signature.
unfoldable pub function_selector : Crates → Bytes → Bytes
function_selector c signature = take 4 (c.keccak256 signature)

unfoldable pub encode_uint256 : ℕ → Bytes
encode_uint256 value = replicate 24 0 ++ be_bytes 8 value

unfoldable pub encode_bool : Bool → Bytes
encode_bool value = replicate 31 0 ++ (if value then 1 else 0) ∷ []

unfoldable pub encode_bytes32 : Bytes → Bytes
encode_bytes32 value = value

unfoldable pub encode_address : Bytes → Bytes
encode_address addr = replicate 12 0 ++ addr

unfoldable pub decode_uint64 : Bytes → ℕ
decode_uint64 word = of_be_bytes (drop 24 word)

-- `word[31]`, of an array of 32 bytes.
unfoldable pub decode_bool : Bytes → Bool
decode_bool word = elim (get_elem? word 31) [ none ↦ false | some b ↦ not (b == 0) ]

unfoldable pub concat : List Bytes → Bytes
concat [] = []
concat (a ∷ args) = a ++ concat args

unfoldable pub encode_call : Bytes → List Bytes → Bytes
unfolding concat
encode_call selector args = selector ++ concat args

unfoldable pub decode_return : Bytes → Option Bytes
decode_return output = if ltb (length output) 32 then none else some (take 32 output)

-- A u64 is read back from its word, which has 32 bytes.
pub decode_uint64-encode_uint256 :
    (n : ℕ) → n < 2 ^ 64 → (decode_uint64 (encode_uint256 n) ≡ n) × (length (encode_uint256 n) ≡ 32)
unfolding decode_uint64 encode_uint256
decode_uint64-encode_uint256 n h = (
  ap of_be_bytes (drop-append 24 (replicate 24 0) (be_bytes 8 n) refl) ∙ of_be_bytes-be_bytes 8 n h,
  length-append (replicate 24 0) (be_bytes 8 n) ∙ omega (arith, length-be_bytes 8 n),
)

pub decode_bool-encode_bool : (b : Bool) → decode_bool (encode_bool b) ≡ b
unfolding decode_bool encode_bool
decode_bool-encode_bool true = refl
decode_bool-encode_bool false = refl

-- The words of calldata after the selector, each of 32 bytes; the contract's view of a call.
unfoldable pub words : ℕ → Bytes → List Bytes
words zero word = []
words (suc n) word = take 32 word ∷ words n (drop 32 word)

length-concat :
    (args : List Bytes) → All (λ a. length a ≡ 32) args → length (concat args) ≡ 32 * length args
unfolding concat
length-concat [] h = refl
length-concat (a ∷ args) h =
    length-append a (concat args) ∙ omega (arith, h.0, length-concat args h.1)

words-concat :
    (args : List Bytes) → All (λ a. length a ≡ 32) args → words (length args) (concat args) ≡ args
unfolding concat words
words-concat [] h = refl
words-concat (a ∷ args) h =
    rw (take-append 32 a (concat args) h.0, drop-append 32 a (concat args) h.0)
      (ap (◌∷◌ a) (words-concat args h.1))

-- Of a selector of 4 bytes and arguments of 32 bytes each, calldata is 4 bytes and 32 per argument
-- long, and the selector and the arguments are read back from it.
pub encode_call_lem :
    (selector : Bytes) (args : List Bytes)
    → length selector ≡ 4
    → All (λ a. length a ≡ 32) args
    → (take 4 (encode_call selector args) ≡ selector)
      × (words (length args) (drop 4 (encode_call selector args)) ≡ args)
      × (length (encode_call selector args) ≡ 4 + 32 * length args)
unfolding encode_call
encode_call_lem selector args h hs = (
  take-append 4 selector (concat args) h,
  ap (words (length args)) (drop-append 4 selector (concat args) h) ∙ words-concat args hs,
  length-append selector (concat args) ∙ omega (arith, h, length-concat args hs),
)
