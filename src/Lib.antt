-- ===== src/Lib.antt =====
-- CipherX: the consensus, the chain, the mempool, the confidential transactions, the contracts and
-- the gossip of the node, the main loop of a single validator, and the wallet.
--
-- Parts and files (paths are from the repository's root):
--   Prelude, Std   lists, words and tests; HashMap, HashSet, Result and byte encodings of Rust's
--                  standard library, with their laws
--   Crates         the third-party crates (sha3, bincode, ed25519_dalek, curve25519_dalek, rocksdb)
--                  as a record of operations that every definition using them takes as argument
--   Core.Types     the data of src/core/transaction.rs, src/core/block.rs and src/crypto/keys.rs
--   Core.Transaction, Core.Block, Core.Merkle
--                  hashes, identity and verification of transactions and blocks; the Merkle root;
--                  Core.Transaction.Coinbase has `build_coinbase`
--   Core.Params    ChainParams of src/core/chain.rs; Core.Params.Schedule is about `block_reward`
--   Core.Chain     Chain of src/core/chain.rs: `validate_transaction`, lookups; Core.Chain.Append
--                  has `append_block` and `apply_block`, and below it Accept is about the verdict,
--                  History about spent key images, Supply about the supply, Links about the tip;
--                  Core.Chain.Open has `open`, with Open.Restore about a database opened again, and
--                  Open.Genesis about starts at different times
--   Core.Mempool   src/core/mempool.rs; Core.Mempool.Index is about its index of key images
--   Core.FeeMarket, Core.PersistentState
--                  src/core/state.rs; src/evm/gas.rs has the fee market again
--   Crypto.Group   the documented laws of the group of curve25519_dalek, as hypotheses
--   Crypto.Ringct  src/crypto/ringct.rs: commitments, balance and the verification of range proofs;
--                  below it Prove has the prover and Build the commitments of a transaction, with
--                  their random scalars as arguments. OrProof, Reconstruct, Layout, Complete and
--                  Balance are about what they make
--   Crypto.RingSig src/crypto/ring_sig.rs: the verifier; below it Sign has the signer, and Complete
--                  is about the two
--   Crypto.Stealth, Crypto.Amount
--                  src/crypto/stealth.rs, with Scan about sender and recipient, and the encrypted
--                  amounts of src/crypto/ringct.rs
--   Storage.Db     CipherXDb of src/storage/db.rs; Storage.Laws has the laws of a working database
--   Consensus.Vote, Consensus.VoteSet, Consensus.State, Consensus.Rounds, Consensus.Engine
--                  src/consensus/tendermint.rs: votes, vote sets, the engine's state, proposals,
--                  votes and timeouts. VoteSet.Quorum is about quorums; Engine.Run composes the
--                  calls that the node makes within a height, Engine.Lock, Engine.Certificate,
--                  Engine.Votes and Engine.LateVotes are about what such calls can lead to
--   Consensus.Slashing
--                  src/consensus/slashing.rs
--   Evm.Abi, Evm.Gas, Evm.PrivateState
--                  src/evm/abi.rs, src/evm/gas.rs, and the encryption of slots of
--                  src/evm/private_state.rs
--   Evm.Contract, Evm.Executor
--                  src/evm/executor.rs; Executor.Refinement is about the contracts over a history
--                  of events, Executor.Calls about deployments and calls
--   Evm.Precompiles
--                  src/evm/precompiles.rs; Results is about all of them, RangeProof about two
--   Network.Rpc    the requests of src/network/rpc.rs; Rpc.Outputs relates outputs by range and block
--   Network.Sync, Network.Peer, Network.P2p
--                  src/network/sync.rs, the reputation of src/network/peer.rs, and the node of
--                  src/network/p2p.rs, with P2p.Dedup about its cache of messages;
--                  Network.Frames has the frames of src/network/sync_protocol.rs
--   Node.Producer  `build_block` and the tick of the main loop of src/main.rs; below it Valid is about
--                  the blocks that are built, Grows about one tick, Run about ticks and requests in
--                  any order
--   Node.Solo, Node.RpcServer
--                  `drive_solo_consensus` and the answers of `run_rpc_server` of src/main.rs;
--                  Solo.Finalizes is about the engine of a single validator
--   Node.Peers     the requests for blocks of src/main.rs, `handle_peer_inbound` and `run_sync_client`;
--                  below it Requests is about answers, CatchUp about two nodes
--   Wallet.Data, Wallet.Words, Wallet.Mnemonic, Wallet.Address, Wallet.File
--                  src/bin/wallet.rs: its data and word list, phrases, keys and addresses (with
--                  `parse_stealth_address` of src/main.rs), and the encrypted file; a RoundTrip below
--                  each is about writing and reading
--   Wallet.Client, Wallet.Scan, Wallet.Send
--                  the RPC client, the scan with `cmd_balance` and `cmd_history`, and `cmd_send` of
--                  src/bin/wallet.rs; Scan.Complete is about what scans find, Send.Received about a
--                  payment from one wallet through the node to another
--   Tests          runs at concrete inputs
--
-- How the parts interact: the engine finalizes a block with its precommit votes; the node gives the
-- block to `append_block`, which verifies the transactions (Core.Transaction, over Crypto), applies
-- them and writes the block to the database (Storage.Db); spent key images then purge the mempool.
-- Node.Producer is this composition for a node that is the only validator: the RPC server queues
-- lite transactions, a tick puts them into a block, drives the engine and appends the block. The
-- wallet meets the node in `cipherx_sendRawTransaction` and `cipherx_getOutputs`.
-- What the verifying side accepts is made by Crypto.Ringct.Prove, Ringct.Build and RingSig.Sign; the
-- precompiles call the same verifiers.
--
-- Conventions. A method takes `self` as its last argument and returns the new value with its
-- result. Unsigned integers are native numbers, with the wrap of a release build written out.
-- Byte arrays and their newtypes are byte strings. A HashMap keeps the order of first insertion;
-- no theorem depends on it but through sums and membership. The clock is an argument. Errors are
-- constructors without their texts; log lines are left out. Transactions of a block, validated in
-- parallel in the source, are validated in order: which of several errors is returned is the one
-- difference. Loops are recursion on the list they run over; the Merkle reduction takes as fuel
-- the number of its leaves, which is at least the number of levels, and has no result without enough
-- of it; `run_sync_client` takes the height of the seed, and each round goes at least one height up.
--
-- Random numbers are arguments, one for each draw; a draw in a loop is a function of the round.
--
-- Texts of the wallet are byte strings in ASCII; hexadecimal, base 58, JSON, Argon2 and AES-GCM are
-- parameters, with round trips as laws where a theorem needs them. An HTTP exchange is a function
-- from the request to an optional response. Amounts of a payment are in nCIP.
--
-- Not modelled: the transport (src/network/tor.rs, connections, handshakes and pushed blocks in
-- src/main.rs) and the HTTP server; start-up, file paths and permissions, prompts and the
-- commands of the wallet that only print; the conversion of amounts from f64; state roots of
-- src/evm/private_state.rs, `adaptive_exit_lock` (floating point), zeroing of memory, and
-- everything that only displays or logs.
pub mod Prelude
pub mod Std
pub mod Core
pub mod Storage
pub mod Crates
pub mod Crypto
pub mod Consensus
pub mod Evm
pub mod Network
pub mod Wallet
pub mod Node
pub mod Tests
