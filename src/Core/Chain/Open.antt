-- ===== src/Core/Chain/Open.antt =====
-- src/core/chain.rs: `Chain::open`, which rebuilds a chain from its database. `none` stands for a
-- database that could not be opened; logging is left out.
mod Adopt
pub mod Genesis
pub mod Restore
use cipher_x.Prelude.{
  ℕ, zero, suc, ◌++◌, Bool, Option, none, some, [], ◌∷◌, Bytes-discrete, ltb, if◌then◌else◌,
}
use cipher_x.Std.HashMap
use cipher_x.Std.Result.{Result, ok, err}
use cipher_x.Core.Types.{Block}
use cipher_x.Core.Block
use cipher_x.Core.Chain.{Chain, new}
use cipher_x.Core.Chain.Append.{apply_block}
use cipher_x.Storage.Db.{get_block_by_height, load_chain_state}
use cipher_x.Crates.{Crates}

module _ {c : Crates} where
  -- A stored block becomes the block of height `h`; `apply_block` always succeeds.
  unfoldable pub adopt : ℕ → Block → Chain c → Chain c
  adopt h b ch =
      let block_hash = Block.hash c b in
      let applied = apply_block b ch in
      record applied {
        height = h;
        tip_hash = block_hash;
        blocks_by_height = applied.blocks_by_height ++ block_hash ∷ [];
        blocks_by_hash = HashMap.insert Bytes-discrete block_hash b applied.blocks_by_hash;
      }

  -- The loop over the next `n` heights, from `h`; it stops at a missing block or an error.
  unfoldable pub replay : ℕ → ℕ → c.Db → Chain c → Chain c
  unfolding adopt
  replay zero h db ch = ch
  replay (suc n) h db ch = elim (get_block_by_height c h db) [
    | err _ ↦ ch
    | ok found ↦ elim found [ none ↦ ch | some b ↦ replay n (suc h) db (adopt h b ch) ]
  ]

  -- At the clock's reading `now`.
  unfoldable pub open_chain : ℕ → Option c.Db → Chain c
  unfolding replay
  open_chain now none = new now
  open_chain now (some db) =
      let restored : Chain c = elim (load_chain_state c db) [
        | err _ ↦ new now
        | ok state ↦ elim state [
          | none ↦ new now
          | some s ↦ if ltb 0 s.0 then replay s.0 1 db (new now) else new now
        ]
      ] in
      record restored { db = some db }
