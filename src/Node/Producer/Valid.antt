-- ===== src/Node/Producer/Valid.antt =====
-- The block that src/main.rs builds is one that the chain takes.
use mathlib.Core.List.{flat_map}
use cipher_x.Prelude.{
  ℕ, suc, ◌≡◌, refl, ap, true, Option, none, some, List, [], ◌∷◌, ◌++◌, All, replicate,
  Option-cases, inl, inr, arith, add64,
}
use cipher_x.Core.Types.{Block, BlockHash, Transaction, StealthAddress, coinbase, lite}
use cipher_x.Core.Block.{zero_hash, placeholder}
use cipher_x.Core.Params.{block_reward}
use cipher_x.Core.Transaction.{
  LiteRaw, from_lite_raw, coinbase_placeholder, is_coinbase, key_images,
}
use cipher_x.Core.Transaction
use cipher_x.Core.Transaction.Coinbase.{build_coinbase, proof_or_empty}
use cipher_x.Core.Chain.{Chain, coinbase_count, coinbase_first, block_key_images}
use cipher_x.Core.Chain.Append.Accept.{ValidBlock, ValidTx}
use cipher_x.Crates.{Crates}
use cipher_x.Std.Encoding.{ascii, le_bytes}
use cipher_x.Crypto.Group.{GroupLaws}
use cipher_x.Crypto.Amount.{encrypt_amount}
use cipher_x.Crypto.Stealth.{StealthOutputKeys, generate_output}
use cipher_x.Crypto.Ringct.{commit, pedersen}
use cipher_x.Crypto.Ringct.Prove.{prove_range}
use cipher_x.Crypto.Ringct.Build.{CommitmentWithBlinding, commit_random}
use cipher_x.Node.Producer.{Draws, coinbase_for}

-- A lite transaction without inputs, as the RPC server queues them.
pub record Plain (tx : Transaction) : Type 0 where
  pub is_lite : tx.tx_type ≡ lite
  pub no_inputs : tx.inputs ≡ []

-- A coinbase without inputs.
pub record IsCoinbase (tx : Transaction) : Type 0 where
  pub is_cb : tx.tx_type ≡ coinbase
  pub no_inputs : tx.inputs ≡ []

coinbase_count-plain : (txs : List Transaction) → All Plain txs → coinbase_count txs ≡ 0
unfolding coinbase_count
coinbase_count-plain [] h = refl
coinbase_count-plain (tx ∷ txs) h = rw (h.0.is_lite, coinbase_count) (coinbase_count-plain txs h.1)

key_images-plain : (txs : List Transaction) → All Plain txs → flat_map key_images txs ≡ []
unfolding flat_map key_images
key_images-plain [] h = refl
key_images-plain (tx ∷ txs) h = rw (h.0.no_inputs, flat_map) (key_images-plain txs h.1)

one_count :
    (cb : Transaction) (txs : List Transaction)
    → IsCoinbase cb
    → All Plain txs
    → coinbase_count (cb ∷ txs) ≡ 1
unfolding coinbase_count
one_count cb txs first plain =
    rw (first.is_cb, coinbase_count) (ap suc (coinbase_count-plain txs plain))

leads :
    (cb : Transaction) (txs : List Transaction) → IsCoinbase cb → coinbase_first (cb ∷ txs) ≡ true
unfolding coinbase_first
leads cb txs first = rw (first.is_cb, coinbase_first) refl

no_images :
    (cb : Transaction) (txs : List Transaction)
    → IsCoinbase cb
    → All Plain txs
    → flat_map key_images (cb ∷ txs) ≡ []
unfolding flat_map key_images
no_images cb txs first plain = rw (first.no_inputs, flat_map) (key_images-plain txs plain)

module _ {c : Crates} where
  valid_coinbase : (ch : Chain c) (tx : Transaction) → IsCoinbase tx → ValidTx ch tx
  unfolding key_images Transaction.verify
  valid_coinbase ch tx h = (rw h.no_inputs tt, rw (h.is_cb, Transaction.verify) refl)

  valid_plain : (ch : Chain c) (txs : List Transaction) → All Plain txs → All (ValidTx ch) txs
  unfolding key_images Transaction.verify
  valid_plain ch [] h = tt
  valid_plain ch (tx ∷ txs) h =
      ((rw h.0.no_inputs tt, rw (h.0.is_lite, Transaction.verify) refl), valid_plain ch txs h.1)

  built : StealthAddress → ℕ → Draws c → StealthOutputKeys c → CommitmentWithBlinding → Transaction
  built addr height draws out x = record {
    tx_type = coinbase;
    inputs = [];
    outputs =
        record {
          one_time_pubkey = out.one_time_pubkey;
          tx_pubkey = out.tx_pubkey;
          amount_commitment = x.commitment;
          encrypted_amount = encrypt_amount c (block_reward height) out.shared_secret;
          range_proof =
              proof_or_empty
                (prove_range c (block_reward height) x.blinding draws.random draws.nonces);
        }
        ∷ [];
    fee_commitment = replicate 32 0;
    fee_proof = [];
    extra = ascii "coinbase" ++ le_bytes 8 height;
    version = 1;
  }

module _ {c : Crates} (laws : GroupLaws c) where
  commit_random-some :
      (amount : ℕ) (r : c.Scalar)
      → (x : CommitmentWithBlinding) × (commit_random c amount r ≡ some x)
  unfolding commit_random commit
  commit_random-some amount r = (
    record {
      commitment = c.compress (pedersen c (c.scalar_from_u64 amount) r);
      blinding = c.scalar_to_bytes r;
      amount = amount;
    },
    rw (laws.from_canonical-to_bytes r) refl,
  )

  -- The coinbase is always built.
  pub coinbase_for-some :
      (addr : Option StealthAddress) (height : ℕ) (draws : Draws c)
      → (cb : Transaction) × (coinbase_for c height addr draws ≡ some cb) × IsCoinbase cb
  unfolding coinbase_for build_coinbase coinbase_placeholder built
  coinbase_for-some none height draws = (_, refl, record { is_cb = refl; no_inputs = refl })
  coinbase_for-some (some addr) height draws =
      elim (Option-cases (generate_output c addr 0 draws.r)) [
        | inl e ↦ (
          coinbase_placeholder height,
          rw (e, build_coinbase) refl,
          record { is_cb = refl; no_inputs = refl },
        )
        | inr (out, e) ↦
            let (x, made) = commit_random-some (block_reward height) draws.blinding in
            (
              built addr height draws out x,
              rw (e, build_coinbase, made) refl,
              record { is_cb = refl; no_inputs = refl },
            )
      ]

module _ {c : Crates} where
  -- The block that is built for the tip of a chain.
  unfoldable pub block_for : Chain c → Transaction → List Transaction → BlockHash → ℕ → Block
  block_for ch cb txs tx_root now = record {
    header = record {
      version = 1;
      height = add64 ch.height 1;
      timestamp = now;
      prev_hash = ch.tip_hash;
      tx_root = tx_root;
      state_root = zero_hash;
      validator_commitment = placeholder;
      round = 0;
    };
    transactions = cb ∷ txs;
    signatures = [];
  }

  pub block_for-ValidBlock :
      (ch : Chain c) (cb : Transaction) (txs : List Transaction) (tx_root : BlockHash) (now : ℕ)
      → IsCoinbase cb
      → All Plain txs
      → ValidBlock (block_for ch cb txs tx_root now) ch
  unfolding block_for block_key_images
  block_for-ValidBlock ch cb txs tx_root now first plain = record {
    next_height = refl;
    on_tip = refl;
    one_coinbase = omega (arith, one_count cb txs first plain);
    coinbase_leads = λ _. leads cb txs first;
    no_repeats = rw (no_images cb txs first plain) tt;
    valid_txs = (valid_coinbase ch cb first, valid_plain ch txs plain);
  }
