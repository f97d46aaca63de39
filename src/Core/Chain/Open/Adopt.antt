-- ===== src/Core/Chain/Open/Adopt.antt =====
-- The steps by which src/core/chain.rs `Chain::open` takes up stored blocks, and what `append_block`
-- persists.
use cipher_x.Prelude.{
  ℕ, suc, ◌+◌, ◌<◌, ◌≡◌, ◌≢◌, refl, sym, ap, ◌∙◌, ◌++◌, Option, some, List, [], ◌∷◌, length, arith,
  add64, u64_mod,
}
use cipher_x.Std.Encoding.{le_bytes, of_le_bytes, of_le_bytes-le_bytes}
use cipher_x.Std.Result.{ok}
use cipher_x.Core.Types.{Block, Transaction}
use cipher_x.Core.Chain.{Chain}
use cipher_x.Core.Chain.Append.{extend, apply_block, apply_all, apply_transaction, persist}
use cipher_x.Core.Chain.Open.{adopt}
use cipher_x.Storage.Db.{put_block, save_chain_state}
use cipher_x.Crates.{Crates}

pub le_bytes-ne : (m n : ℕ) → m < u64_mod → n < u64_mod → m ≢ n → le_bytes 8 m ≢ le_bytes 8 n
le_bytes-ne m n hm hn ne e =
    ne (sym (of_le_bytes-le_bytes 8 m hm) ∙ ap of_le_bytes e ∙ of_le_bytes-le_bytes 8 n hn)

pub empty_list : {A : Type 0} (xs : List A) → length xs ≡ 0 → xs ≡ []
empty_list [] h = refl
empty_list (x ∷ xs) h = absurd (omega arith)

module _ {c : Crates} where
  -- The blocks of consecutive heights, from `h`.
  unfoldable pub adopt_all : ℕ → List Block → Chain c → Chain c
  unfolding adopt
  adopt_all h [] ch = ch
  adopt_all h (b ∷ bs) ch = adopt_all (suc h) bs (adopt h b ch)

  pub adopt_all-append :
      (h : ℕ) (bs : List Block) (b : Block) (ch : Chain c)
      → adopt_all h (bs ++ b ∷ []) ch ≡ adopt (h + length bs) b (adopt_all h bs ch)
  unfolding adopt_all
  adopt_all-append h [] b ch = ap (λ n. adopt n b ch) (omega arith)
  adopt_all-append h (x ∷ bs) b ch =
      adopt_all-append (suc h) bs b (adopt h x ch)
      ∙ ap (λ n. adopt n b (adopt_all (suc h) bs (adopt h x ch))) (omega arith)

  -- The database plays no part in what a block changes.
  apply_all-db :
      (h : ℕ) (txs : List Transaction) (ch : Chain c) (db : Option c.Db)
      → apply_all h txs (record ch { db = db }) ≡ record (apply_all h txs ch) { db = db }
  unfolding apply_all apply_transaction
  apply_all-db h [] ch db = refl
  apply_all-db h (tx ∷ txs) ch db = apply_all-db h txs (apply_transaction h tx ch) db

  pub adopt-db :
      (h : ℕ) (b : Block) (ch : Chain c) (db : Option c.Db)
      → adopt h b (record ch { db = db }) ≡ record (adopt h b ch) { db = db }
  unfolding adopt apply_block
  adopt-db h b ch db = rw (apply_all-db b.header.height b.transactions ch db) refl

  abbrev pub on_db : c.Db → Chain c → Chain c
  on_db db ch = record ch { db = some db }

  pub extend-adopt :
      (b : Block) (ch : Chain c) → extend b ch ≡ persist b (adopt (add64 ch.height 1) b ch)
  unfolding extend adopt
  extend-adopt b ch = refl

  pub persist-ok :
      (b : Block) (ch : Chain c) (db db1 db2 : c.Db)
      → put_block c b db ≡ ok db1
      → save_chain_state c ch.height ch.tip_hash db1 ≡ ok db2
      → persist b (record ch { db = some db }) ≡ record ch { db = some db2 }
  unfolding persist
  persist-ok b ch db db1 db2 e f = rw (e, f) refl
