-- ===== src/Crates.antt =====
-- The third-party crates that the program calls: hashes (sha3), encodings (bincode), Ed25519
-- (ed25519_dalek), the Ristretto group (curve25519_dalek) and RocksDB. They are a parameter of
-- every definition that uses them.
use cipher_x.Prelude.{ℕ, Bool, List, Option, Bytes}
use cipher_x.Core.Types.{Transaction, Block, BlockHeader, RingSignature}
use cipher_x.Storage.Families.{ColumnFamily}

pub record Crates : Type 1 where
  -- sha3
  pub sha3_256 : Bytes → Bytes
  pub sha3_512 : Bytes → Bytes
  pub keccak256 : Bytes → Bytes
  -- bincode
  pub serialize_transaction : Transaction → Bytes
  pub serialize_block : Block → Option Bytes
  pub deserialize_block : Bytes → Option Block
  pub serialize_header : BlockHeader → Bytes
  pub serialize_signature : RingSignature → Bytes
  pub deserialize_signature : Bytes → Option RingSignature
  -- ed25519_dalek: a key as accepted by `VerifyingKey::from_bytes`, and `verify(..).is_ok()`
  pub SigningKey : Type 0
  pub ed25519_sign : SigningKey → Bytes → Bytes
  pub ed25519_key_ok : Bytes → Bool
  pub ed25519_verify : Bytes → Bytes → Bytes → Bool
  -- curve25519_dalek::scalar
  pub Scalar : Type 0
  pub Scalar-discrete : Discrete Scalar
  pub scalar_zero : Scalar
  pub scalar_one : Scalar
  pub scalar_add : Scalar → Scalar → Scalar
  pub scalar_sub : Scalar → Scalar → Scalar
  pub scalar_mul : Scalar → Scalar → Scalar
  pub scalar_invert : Scalar → Scalar
  pub scalar_from_u64 : ℕ → Scalar
  pub scalar_from_canonical : Bytes → Option Scalar
  pub scalar_from_wide : Bytes → Scalar
  pub scalar_to_bytes : Scalar → Bytes
  -- curve25519_dalek::ristretto
  pub Point : Type 0
  pub Point-discrete : Discrete Point
  pub identity : Point
  pub basepoint : Point
  pub point_add : Point → Point → Point
  pub point_sub : Point → Point → Point
  pub point_mul : Scalar → Point → Point
  pub compress : Point → Bytes
  pub decompress : Bytes → Option Point
  pub point_from_uniform : Bytes → Point
  -- chacha20poly1305: key, nonce and text
  pub aead_encrypt : Bytes → Bytes → Bytes → Bytes
  pub aead_decrypt : Bytes → Bytes → Bytes → Option Bytes
  -- rocksdb: an atomic batch of puts, `none` if it fails; a read, `none` if it fails
  pub Db : Type 0
  pub db_write : Db → List (ColumnFamily × Bytes × Bytes) → Option Db
  pub db_get : Db → ColumnFamily → Bytes → Option (Option Bytes)
