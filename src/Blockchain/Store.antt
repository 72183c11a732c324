-- ===== src/Blockchain/Store.antt =====
-- lib/blockchain/chaindb.js: `save`, `reconnect` and `disconnect`, with the indexes of the main
-- chain. The caches, which hold what the database holds, the tips and the deployment states are left
-- out.
pub mod MainChain
pub mod Kept
pub mod OnChain
pub mod Ancestors
use litedoge_js.Prelude.{ℕ, Bool, true, false, ◌||◌, Option, none, some, ◌==◌, if◌then◌else◌}
use litedoge_js.Coins.View.{View}
use litedoge_js.Blockchain.Block.{Block, ChainEntry, is_genesis}
use litedoge_js.Blockchain.ChainDb.{ChainDb, connect_block, disconnect_block}
use litedoge_js.Blockchain.Records.{write}
use litedoge_js.Blockchain.Index.{Index}

-- The records by their prefixes in layout.js: `entries` is e, `hash_at` H and `next` n. The block
-- store keeps `blocks`.
pub record Store : Type 0 where
  pub entries : Index
  pub hash_at : ℕ → Option ℕ
  pub next : ℕ → Option ℕ
  pub blocks : ℕ → Option Block
  pub db : ChainDb

-- `pending.commit`.
unfoldable pub commit : ℕ → ChainDb → ChainDb
commit hash db = record db { pending = record (db.pending) { tip = hash } }

abbrev pub with_db : Store → ℕ → Option ChainDb → Option Store
with_db s tip none = none
with_db s tip (some db) = some (record s { db = commit tip db })

-- `none` is an exception, after which the batch is dropped.
unfoldable pub reconnect : ChainEntry → Block → View → Store → Option Store
unfolding write connect_block
reconnect entry block view s =
    if is_genesis entry
    then none
    else with_db
        (record s {
          next = write entry.prev_block (some block.hash) s.next;
          hash_at = write entry.height (some block.hash) s.hash_at;
        })
        block.hash (connect_block entry block view s.db)

unfoldable pub disconnect : ChainEntry → Block → Store → Option Store
unfolding write disconnect_block
disconnect entry block s =
    with_db
      (record s {
        next = write entry.prev_block none s.next;
        hash_at = write entry.height none s.hash_at;
      })
      entry.prev_block (disconnect_block entry block s.db)

-- A block saved on an alternate chain has no view.
unfoldable pub save_alternate : ChainEntry → Block → Store → Store
unfolding write
save_alternate entry block s = record s {
  entries = write block.hash (some entry) s.entries;
  blocks = if s.db.spv then s.blocks else write block.hash (some block) s.blocks;
}

-- A block saved at the tip. The block is written before its inputs are connected.
unfoldable pub save : ChainEntry → Block → View → Store → Option Store
unfolding save_alternate write connect_block
save entry block view s =
    let t = save_alternate entry block s in
    with_db
      (record t {
        next = if is_genesis entry then t.next else write entry.prev_block (some block.hash) t.next;
        hash_at = write entry.height (some block.hash) t.hash_at;
      })
      block.hash (connect_block entry block view t.db)

-- `isMainChain`, which asks the cache of heights first where it has the height.
unfoldable pub is_main_chain : Store → ChainEntry → Bool
is_main_chain s e =
    is_genesis e
    || e.hash == s.db.pending.tip
    || (elim (s.next e.hash) [ none ↦ false | some h ↦ true ])
