-- ===== src/Tests/Toy.antt =====
-- Small stand-ins for the third-party crates: hashes that return their input, signatures that are
-- all zero, and the integers as a group.
use cipher_x.Prelude.{
  ℕ, ◌+◌, ◌-◌, ◌*◌, true, Option, none, some, [], ◌∷◌, Bytes, ℕ_discrete, replicate,
}
use cipher_x.Core.Block.{genesis}
use cipher_x.Crates.{Crates}

abbrev pub head_or_zero : Bytes → ℕ
head_or_zero [] = 0
head_or_zero (b ∷ _) = b

abbrev point_of : Bytes → Option ℕ
point_of [] = none
point_of (b ∷ _) = some b

abbrev pub toy : Crates
toy = record {
  sha3_256 = λ b. b;
  sha3_512 = λ b. b;
  keccak256 = λ b. b;
  serialize_transaction = λ tx. tx.version ∷ tx.extra;
  serialize_block = λ b. some (b.header.height ∷ []);
  deserialize_block = λ b. some (genesis (head_or_zero b));
  serialize_header = λ h. h.height ∷ h.round ∷ h.prev_hash;
  serialize_signature = λ s. s.c0;
  deserialize_signature = λ b. some (record { c0 = b; s = []; key_image = [] });
  SigningKey = ℕ;
  ed25519_sign = λ k m. replicate 64 0;
  ed25519_key_ok = λ k. true;
  ed25519_verify = λ k m s. true;
  Scalar = ℕ;
  Scalar-discrete = ℕ_discrete;
  scalar_zero = 0;
  scalar_one = 1;
  scalar_add = ◌+◌;
  scalar_sub = ◌-◌;
  scalar_mul = ◌*◌;
  scalar_invert = λ s. s;
  scalar_from_u64 = λ n. n;
  scalar_from_canonical = point_of;
  scalar_from_wide = head_or_zero;
  scalar_to_bytes = λ s. s ∷ [];
  Point = ℕ;
  Point-discrete = ℕ_discrete;
  identity = 0;
  basepoint = 1;
  point_add = ◌+◌;
  point_sub = ◌-◌;
  point_mul = ◌*◌;
  compress = λ p. p ∷ [];
  decompress = point_of;
  point_from_uniform = head_or_zero;
  aead_encrypt = λ k n t. t;
  aead_decrypt = λ k n t. some t;
  Db = Unit;
  db_write = λ db puts. some db;
  db_get = λ db cf k. some none;
}
