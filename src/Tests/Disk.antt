-- ===== src/Tests/Disk.antt =====
-- A node on a database that is a list of puts, stopped after one block and started again.
use cipher_x.Prelude.{
  ◌≡◌, refl, sym, ap, ◌∙◌, ◌++◌, Option, none, some, List, [], ◌∷◌, Bytes, replicate, arith,
}
use cipher_x.Core.Types.{Block}
use cipher_x.Core.Block.{genesis}
use cipher_x.Core.Block
use cipher_x.Core.Chain.Append.History.{append_blocks}
use cipher_x.Core.Chain.Open.{open_chain}
use cipher_x.Core.Chain.Open.Genesis.{Resumed}
use cipher_x.Core.Chain.Open.Restore.{open_chain-append_blocks}
use cipher_x.Storage.Families.{ColumnFamily}
use cipher_x.Storage.Db.{load_chain_state}
use cipher_x.Storage.Laws.{overlay, DbLaws}
use cipher_x.Crates.{Crates}
use cipher_x.Tests.Toy.{toy, head_or_zero}

abbrev first_block : Block
first_block = record (genesis 0) {
  header = record (genesis 0).header { height = 1; prev_hash = replicate 32 0 };
}

abbrev Puts : Type 0
Puts = List (ColumnFamily × Bytes × Bytes)

abbrev disk : Crates
disk = record toy {
  sha3_256 = λ b. head_or_zero b ∷ replicate 31 0;
  serialize_block = λ b. some [];
  deserialize_block = λ b. some first_block;
  Db = Puts;
  db_write = λ db puts. some (db ++ puts);
  db_get = λ db f k. some (overlay db f k none);
}

overlay-append :
    (xs ys : Puts) (f : ColumnFamily) (k : Bytes) (v : Option Bytes)
    → overlay (xs ++ ys) f k v ≡ overlay ys f k (overlay xs f k v)
overlay-append [] ys f k v = refl
overlay-append (x ∷ xs) ys f k v = overlay-append xs ys f k _

some_inj : {A : Type 0} (a b : A) → some a ≡ some b → a ≡ b
some_inj a b h = ground arith

disk-DbLaws : DbLaws disk
unfolding Block.hash
disk-DbLaws = record {
  write_ok = λ db puts. (db ++ puts, refl);
  read_ok = λ db f k. (overlay db f k none, refl);
  read-write = λ db db' puts f k v written read.
      ap (λ d. some (overlay d f k none)) (sym (some_inj (db ++ puts) db' written))
      ∙ ap some (
          overlay-append db puts f k none
          ∙ ap (overlay puts f k) (some_inj (overlay db f k none) v read));
  length-hash = λ b. refl;
}

hash_height :
    (b b' : Block) → Block.hash disk b ≡ Block.hash disk b' → b.header.height ≡ b'.header.height
unfolding Block.hash
hash_height b b' h = ap head_or_zero h

open_chain-append_blocks_example :
    (db : Puts) × ((append_blocks {c = disk}
        (first_block ∷ [])
        (open_chain {c = disk} 0 (some []), [])).0.db
      ≡ some db)
    × Resumed
        (append_blocks {c = disk} (first_block ∷ []) (open_chain {c = disk} 0 (some []), [])).0
        (open_chain {c = disk} 60_000 (some db))
unfolding load_chain_state
open_chain-append_blocks_example =
    open_chain-append_blocks disk-DbLaws hash_height 0 60_000 [] (first_block ∷ []) refl
      (([], refl, refl), tt) (omega arith)
