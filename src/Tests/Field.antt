-- ===== src/Tests/Field.antt =====
-- Stand-ins for the third-party crates that satisfy their documented laws: the field of three elements,
-- as a group over itself, with encodings of 32 bytes; and an AEAD that appends its tag.
use cipher_x.Prelude.{
  ℕ, zero, suc, ◌+◌, ◌-◌, ◌*◌, ◌%◌, ◌≡◌, ◌≢◌, refl, sym, ap, ◌∙◌, ◌++◌, Option, none, some, [], ◌∷◌,
  Bytes, length, take, replicate, arith, length-append, take-append,
}
use cipher_x.Crates.{Crates}
use cipher_x.Crypto.Group.{GroupLaws}
use cipher_x.Crypto.Amount.{AeadLaws}
use cipher_x.Tests.Toy.{toy}

-- The residues 0, 1 and 2.
pub data F3 : Type 0 where
  o i t : F3

abbrev add : F3 → F3 → F3
add o b = b
add i o = i
add i i = t
add i t = o
add t o = t
add t i = o
add t t = i

abbrev negate : F3 → F3
negate o = o
negate i = t
negate t = i

abbrev pub mul : F3 → F3 → F3
mul o b = o
mul i b = b
mul t b = negate b

abbrev sub : F3 → F3 → F3
sub a b = add a (negate b)

abbrev from : ℕ → F3
from zero = o
from (suc n) = add i (from n)

abbrev code : F3 → ℕ
code o = 0
code i = 1
code t = 2

abbrev of_code : ℕ → Option F3
of_code zero = some o
of_code (suc zero) = some i
of_code (suc (suc zero)) = some t
of_code (suc (suc (suc n))) = none

abbrev pub encode : F3 → Bytes
encode a = code a ∷ replicate 31 0

abbrev decode : Bytes → Option F3
decode [] = none
decode (b ∷ _) = of_code b

abbrev total : Bytes → ℕ
total [] = 0
total (b ∷ bs) = b + total bs

abbrev F3-discrete : Discrete F3
F3-discrete o o = yes refl
F3-discrete o i = no (λ e. ground arith)
F3-discrete o t = no (λ e. ground arith)
F3-discrete i o = no (λ e. ground arith)
F3-discrete i i = yes refl
F3-discrete i t = no (λ e. ground arith)
F3-discrete t o = no (λ e. ground arith)
F3-discrete t i = no (λ e. ground arith)
F3-discrete t t = yes refl

add_comm : (a b : F3) → add a b ≡ add b a
add_comm o o = refl
add_comm o i = refl
add_comm o t = refl
add_comm i o = refl
add_comm i i = refl
add_comm i t = refl
add_comm t o = refl
add_comm t i = refl
add_comm t t = refl

add_assoc : (a b d : F3) → add (add a b) d ≡ add a (add b d)
add_assoc o o o = refl
add_assoc o o i = refl
add_assoc o o t = refl
add_assoc o i o = refl
add_assoc o i i = refl
add_assoc o i t = refl
add_assoc o t o = refl
add_assoc o t i = refl
add_assoc o t t = refl
add_assoc i o o = refl
add_assoc i o i = refl
add_assoc i o t = refl
add_assoc i i o = refl
add_assoc i i i = refl
add_assoc i i t = refl
add_assoc i t o = refl
add_assoc i t i = refl
add_assoc i t t = refl
add_assoc t o o = refl
add_assoc t o i = refl
add_assoc t o t = refl
add_assoc t i o = refl
add_assoc t i i = refl
add_assoc t i t = refl
add_assoc t t o = refl
add_assoc t t i = refl
add_assoc t t t = refl

subtract_then_add : (a b : F3) → add (sub a b) b ≡ a
subtract_then_add o o = refl
subtract_then_add o i = refl
subtract_then_add o t = refl
subtract_then_add i o = refl
subtract_then_add i i = refl
subtract_then_add i t = refl
subtract_then_add t o = refl
subtract_then_add t i = refl
subtract_then_add t t = refl

add_then_subtract : (a b : F3) → sub (add a b) b ≡ a
add_then_subtract o o = refl
add_then_subtract o i = refl
add_then_subtract o t = refl
add_then_subtract i o = refl
add_then_subtract i i = refl
add_then_subtract i t = refl
add_then_subtract t o = refl
add_then_subtract t i = refl
add_then_subtract t t = refl

mul_comm : (a b : F3) → mul a b ≡ mul b a
mul_comm o o = refl
mul_comm o i = refl
mul_comm o t = refl
mul_comm i o = refl
mul_comm i i = refl
mul_comm i t = refl
mul_comm t o = refl
mul_comm t i = refl
mul_comm t t = refl

mul_assoc : (a b d : F3) → mul (mul a b) d ≡ mul a (mul b d)
mul_assoc o o o = refl
mul_assoc o o i = refl
mul_assoc o o t = refl
mul_assoc o i o = refl
mul_assoc o i i = refl
mul_assoc o i t = refl
mul_assoc o t o = refl
mul_assoc o t i = refl
mul_assoc o t t = refl
mul_assoc i o o = refl
mul_assoc i o i = refl
mul_assoc i o t = refl
mul_assoc i i o = refl
mul_assoc i i i = refl
mul_assoc i i t = refl
mul_assoc i t o = refl
mul_assoc i t i = refl
mul_assoc i t t = refl
mul_assoc t o o = refl
mul_assoc t o i = refl
mul_assoc t o t = refl
mul_assoc t i o = refl
mul_assoc t i i = refl
mul_assoc t i t = refl
mul_assoc t t o = refl
mul_assoc t t i = refl
mul_assoc t t t = refl

distrib_left : (a b d : F3) → mul a (add b d) ≡ add (mul a b) (mul a d)
distrib_left o o o = refl
distrib_left o o i = refl
distrib_left o o t = refl
distrib_left o i o = refl
distrib_left o i i = refl
distrib_left o i t = refl
distrib_left o t o = refl
distrib_left o t i = refl
distrib_left o t t = refl
distrib_left i o o = refl
distrib_left i o i = refl
distrib_left i o t = refl
distrib_left i i o = refl
distrib_left i i i = refl
distrib_left i i t = refl
distrib_left i t o = refl
distrib_left i t i = refl
distrib_left i t t = refl
distrib_left t o o = refl
distrib_left t o i = refl
distrib_left t o t = refl
distrib_left t i o = refl
distrib_left t i i = refl
distrib_left t i t = refl
distrib_left t t o = refl
distrib_left t t i = refl
distrib_left t t t = refl

distrib_right : (a b d : F3) → mul (add a b) d ≡ add (mul a d) (mul b d)
distrib_right o o o = refl
distrib_right o o i = refl
distrib_right o o t = refl
distrib_right o i o = refl
distrib_right o i i = refl
distrib_right o i t = refl
distrib_right o t o = refl
distrib_right o t i = refl
distrib_right o t t = refl
distrib_right i o o = refl
distrib_right i o i = refl
distrib_right i o t = refl
distrib_right i i o = refl
distrib_right i i i = refl
distrib_right i i t = refl
distrib_right i t o = refl
distrib_right i t i = refl
distrib_right i t t = refl
distrib_right t o o = refl
distrib_right t o i = refl
distrib_right t o t = refl
distrib_right t i o = refl
distrib_right t i i = refl
distrib_right t i t = refl
distrib_right t t o = refl
distrib_right t t i = refl
distrib_right t t t = refl

mul_invert : (a : F3) → a ≢ o → mul a a ≡ i
mul_invert o h = absurd (h refl)
mul_invert i h = refl
mul_invert t h = refl

mul_ne_zero : (a b : F3) → a ≢ o → b ≢ o → mul a b ≢ o
mul_ne_zero o o h k = absurd (h refl)
mul_ne_zero o i h k = absurd (h refl)
mul_ne_zero o t h k = absurd (h refl)
mul_ne_zero i o h k = absurd (k refl)
mul_ne_zero i i h k = λ e. ground arith
mul_ne_zero i t h k = λ e. ground arith
mul_ne_zero t o h k = absurd (k refl)
mul_ne_zero t i h k = λ e. ground arith
mul_ne_zero t t h k = λ e. ground arith

from-add : (m n : ℕ) → from (m + n) ≡ add (from m) (from n)
from-add zero n = let e : 0 + n ≡ n = omega arith in ap from e
from-add (suc m) n =
    let e : suc m + n ≡ suc (m + n) = omega arith in
    ap from e ∙ ap (add i) (from-add m n) ∙ sym (add_assoc i (from m) (from n))

from-mul : (m n : ℕ) → from (m * n) ≡ mul (from m) (from n)
from-mul zero n = let e : 0 * n ≡ 0 = omega arith in ap from e
from-mul (suc m) n =
    let e : suc m * n ≡ n + m * n = grind arith in
    ap from e
    ∙ from-add n (m * n)
    ∙ ap (add (from n)) (from-mul m n)
    ∙ sym (distrib_right i (from m) (from n))

decode-encode : (a : F3) → decode (encode a) ≡ some a
decode-encode o = refl
decode-encode i = refl
decode-encode t = refl

abbrev pub field : Crates
field = record toy {
  sha3_256 = λ b. replicate 32 (total b % 256);
  aead_encrypt = λ k n text. text ++ replicate 16 0;
  aead_decrypt = λ k n text. some (take (length text - 16) text);
  Scalar = F3;
  Scalar-discrete = F3-discrete;
  scalar_zero = o;
  scalar_one = i;
  scalar_add = add;
  scalar_sub = sub;
  scalar_mul = mul;
  scalar_invert = λ a. a;
  scalar_from_u64 = from;
  scalar_from_canonical = decode;
  scalar_from_wide = λ b. from (total b % 3);
  scalar_to_bytes = encode;
  Point = F3;
  Point-discrete = F3-discrete;
  identity = o;
  basepoint = i;
  point_add = add;
  point_sub = sub;
  point_mul = mul;
  compress = encode;
  decompress = decode;
  point_from_uniform = λ b. t;
}

pub field-GroupLaws : GroupLaws field
field-GroupLaws = record {
  scalar-add_comm = add_comm;
  scalar-add_assoc = add_assoc;
  scalar-zero_add = λ a. refl;
  scalar-sub_add = subtract_then_add;
  scalar-mul_comm = mul_comm;
  scalar-mul_assoc = mul_assoc;
  scalar-one_mul = λ a. refl;
  scalar-mul_add = distrib_left;
  scalar-mul_invert = mul_invert;
  scalar-mul_ne_zero = mul_ne_zero;
  scalar-one_ne_zero = λ e. ground arith;
  scalar-two_ne_zero = λ e. ground arith;
  from_u64-zero = refl;
  from_u64-one = refl;
  from_u64-add = λ m n h. from-add m n;
  from_u64-mul = λ m n h. from-mul m n;
  point-add_comm = add_comm;
  point-add_assoc = add_assoc;
  point-zero_add = λ a. refl;
  point-add_sub = add_then_subtract;
  mul-add_scalar = distrib_right;
  mul-add_point = distrib_left;
  mul-mul = mul_assoc;
  mul-zero = λ a. refl;
  mul-one = λ a. refl;
  decompress-compress = decode-encode;
  length-compress = λ a. refl;
  from_canonical-to_bytes = decode-encode;
  length-to_bytes = λ a. refl;
}

pub field-AeadLaws : AeadLaws field
field-AeadLaws = record {
  decrypt-encrypt = λ k n text. ap some (
      ap (λ m. take m (text ++ replicate 16 0)) (omega (arith, length-append text (replicate 16 0)))
      ∙ take-append (length text) text (replicate 16 0) refl);
  length-encrypt = λ k n text. length-append text (replicate 16 0);
}
