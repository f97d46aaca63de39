-- ===== src/Tests/Node.antt =====
-- A single validator over the field of three elements: a payment is sent and a block is made.
use cipher_x.Prelude.{
  ◌+◌, ◌≡◌, refl, false, none, some, List, [], ◌∷◌, ◌++◌, Bytes, replicate, arith, add64,
}
use cipher_x.Std.Encoding.{ascii}
use cipher_x.Std.Result.{ok}
use cipher_x.Core.Types.{Block, Transaction, coinbase}
use cipher_x.Core.Block.{placeholder}
use cipher_x.Core.Transaction.{LiteRaw}
use cipher_x.Core.Chain
use cipher_x.Core.Chain.Append.{append_block}
use cipher_x.Crypto.Stealth.{generate_keypair}
use cipher_x.Consensus.State.{Engine, default_timeouts, ConsensusStep}
use cipher_x.Consensus.State
use cipher_x.Consensus.Rounds.{start_height}
use cipher_x.Network.Rpc.{Json, RpcRequest}
use cipher_x.Node.Solo.Finalizes.{start_height-new}
use cipher_x.Node.Producer.{Node, Draws, Sent, gossip_block, push_block, tick}
use cipher_x.Node.Producer.Grows.{Producing, tick-extends}
use cipher_x.Node.Producer.Run.{Event, send, ticks, run, included, all_submitted, run-grows}
use cipher_x.Tests.Field.{i, t, field, encode, field-GroupLaws}

-- JSON values that are texts.
abbrev texts : Json
texts = record { Value = Bytes; as_u64 = λ b. none; as_str = λ b. some b }

abbrev read_raw : Bytes → LiteRaw
read_raw b = record { tx_pubkey = b; one_time_pubkey = b; encrypted_amount = [] }

abbrev request : RpcRequest texts
request = record { id = []; method = ascii "cipherx_sendRawTransaction"; params = encode t ∷ [] }

abbrev draws : Draws field
draws = record {
  r = t;
  blinding = i;
  random = λ n. t;
  nonces = λ n. record { k = i; e = t; s = i };
}

abbrev us : Bytes
us = replicate 32 1

-- The engine that `main` starts.
abbrev engine : Engine field
engine = (start_height 1 0 (State.new 1 1 (us ∷ []) (some us) (some placeholder) 0)).0

abbrev node : Node field
node = record {
  is_sync_mode = false;
  reward_address = some ((generate_keypair field t i).address);
  chain = Chain.new 0;
  consensus = engine;
  mempool = [];
  blocks_mined = 0;
}

node-Producing : Producing node
node-Producing = record {
  us = us;
  commitment = some placeholder;
  times = default_timeouts;
  at_height = 1;
  evidence = [];
  at_step = ConsensusStep.propose;
  proposed = none;
  valid = none;
  since = 0;
  alone = start_height-new field us (some placeholder) 0 0;
  validating = refl;
  plain = tt;
}

tick-extends_example :
    (n' : Node field) × (b : Block) × (cb : Transaction) × (tick 6 draws node
      ≡ some (n', gossip_block b ∷ push_block b ∷ []))
    × (append_block b node.chain ≡ (n'.chain, ok tt))
    × (b.transactions ≡ cb ∷ node.mempool)
    × (cb.tx_type ≡ coinbase)
    × (n'.chain.height ≡ add64 node.chain.height 1)
    × (n'.mempool ≡ [])
    × Producing n'
tick-extends_example = tick-extends field-GroupLaws 6 draws node node-Producing

abbrev history : List (Event field texts (λ b. some b) (λ b. some b) (λ b. some (read_raw b)))
history = send request ∷ ticks 6 draws ∷ send request ∷ send request ∷ []

run-grows_example :
    (n' : Node field) × (sent : List Sent) × (run field texts
        (λ b. some b)
        (λ b. some b)
        (λ b. some (read_raw b))
        history
        node
      ≡ some (n', sent))
    × (n'.chain.height ≡ node.chain.height + 1)
    × (included sent ++ n'.mempool
        ≡ node.mempool
          ++ all_submitted field texts (λ b. some b) (λ b. some b) (λ b. some (read_raw b)) history)
    × Producing n'
unfolding Chain.new
run-grows_example =
    run-grows field texts (λ b. some b) (λ b. some b) (λ b. some (read_raw b)) field-GroupLaws
      history node node-Producing (omega arith)
