-- ===== src/Blockchain/ChainDb.antt =====
-- lib/blockchain/chaindb.js: the coin records, the undo records and the chain state, and how a block
-- changes them. Pruning and the indexes are left out.
pub mod Save
pub mod Kept
pub mod Disconnect
pub mod Reorg
use litedoge_js.Prelude.{ℕ, Bool, true, false, ◌&&◌, Option, none, some, List, [], ◌∷◌, ◌++◌, ◌==◌}
use litedoge_js.Prelude.{if◌then◌else◌, length}
use litedoge_js.Prelude.Int.{ℤ, pos, ◌+ℤ◌, ◌-ℤ◌}
use litedoge_js.Prelude.Map.{Map}
use litedoge_js.Primitives.Tx.{Outpoint, Output, Tx, is_unspendable}
use litedoge_js.Coins.Entry.{CoinEntry, Stored, to_raw}
use litedoge_js.Coins.Outputs.{Coins}
use litedoge_js.Coins.View.{View, empty, get_output, remove_tx}
use litedoge_js.Coins.Undo
use litedoge_js.Coins.Spend.{Db}
use litedoge_js.Blockchain.Block.{Block, ChainEntry, is_genesis, prevouts}

-- `coin` and `value` are counters: nothing in the code keeps them from going below 0.
pub record ChainState : Type 0 where
  pub tip : ℕ
  pub tx : ℤ
  pub coin : ℤ
  pub value : ℤ

unfoldable pub connect : Block → ChainState → ChainState
connect b s = record s { tx = s.tx +ℤ pos (length b.txs) }

unfoldable pub disconnect : Block → ChainState → ChainState
disconnect b s = record s { tx = s.tx -ℤ pos (length b.txs) }

unfoldable pub add : Output → ChainState → ChainState
add o s = record s { coin = s.coin +ℤ pos 1; value = s.value +ℤ o.value }

unfoldable pub spend : Output → ChainState → ChainState
spend o s = record s { coin = s.coin -ℤ pos 1; value = s.value -ℤ o.value }

-- The writes of a batch.
pub data Op : Type 0 where
  put : ℕ → ℕ → Stored → Op
  del : ℕ → ℕ → Op

unfoldable pub apply_op : Op → Db → Db
apply_op (put h i s) db h' i' = if h == h' && i == i' then some s else db h' i'
apply_op (del h i) db h' i' = if h == h' && i == i' then none else db h' i'

unfoldable pub apply_batch : List Op → Db → Db
apply_batch [] db = db
apply_batch (o ∷ os) db = apply_batch os (apply_op o db)

unfoldable pub save_coin : ℕ → ℕ → CoinEntry → Op
save_coin h i e = if e.spent then del h i else put h i (to_raw e)

unfoldable pub save_coins : ℕ → Coins → List Op
unfolding save_coin
save_coins h [] = []
save_coins h ((i, e) ∷ cs) = save_coin h i e ∷ save_coins h cs

unfoldable pub save_map : Map Coins → List Op
unfolding save_coins
save_map [] = []
save_map ((h, cs) ∷ m) = save_coins h cs ++ save_map m

unfoldable pub save_view : View → List Op
unfolding save_map
save_view v = save_map v.coins

pub record ChainDb : Type 0 where
  pub spv : Bool
  pub coins : Db
  pub undo : ℕ → Option (List Stored)
  pub pending : ChainState

-- `none` is the TypeError of reading the value of a null output.
unfoldable pub spend_prevouts : List Outpoint → View → ChainState → Option ChainState
spend_prevouts [] v s = some s
spend_prevouts (p ∷ ps) v s = elim (get_output p v) [
  | none ↦ none
  | some o ↦ spend_prevouts ps v (spend o s)
]

unfoldable pub add_outputs : List Output → ChainState → ChainState
add_outputs [] s = s
add_outputs (o ∷ os) s = add_outputs os (if is_unspendable o.script then s else add o s)

-- The loop that updates the chain state; only the first transaction of a block spends nothing.
unfoldable pub connect_txs : Bool → List Tx → View → ChainState → Option ChainState
unfolding spend_prevouts add_outputs
connect_txs first [] v s = some s
connect_txs first (tx ∷ txs) v s =
    elim (if first then some s else spend_prevouts (prevouts tx) v s) [
      | none ↦ none
      | some s' ↦ connect_txs false txs v (add_outputs tx.outputs s')
    ]

unfoldable pub write_undo : ℕ → List Stored → (ℕ → Option (List Stored)) → ℕ → Option (List Stored)
write_undo hash [] undo h = undo h
write_undo hash (c ∷ cs) undo h = if hash == h then some (c ∷ cs) else undo h

unfoldable pub connect_block : ChainEntry → Block → View → ChainDb → Option ChainDb
unfolding connect_txs apply_batch save_view write_undo connect
connect_block entry block view db =
    if db.spv
    then some db
    else (if is_genesis entry
        then some (record db { pending = connect block db.pending })
        else elim (connect_txs true block.txs view (connect block db.pending)) [
          | none ↦ none
          | some s ↦ some (record {
            spv = db.spv;
            coins = apply_batch (save_view view) db.coins;
            undo = write_undo block.hash (Undo.commit view).0 db.undo;
            pending = s;
          })
        ])

-- The state of the loops of `disconnectBlock`.
pub record Undoing : Type 0 where
  pub items : List CoinEntry
  pub view : View
  pub pending : ChainState

add_unspent : Option Output → List CoinEntry → View → ChainState → Option Undoing
add_unspent none items v s = none
add_unspent (some o) items v s = some (record { items = items; view = v; pending = add o s })

unspend : Outpoint → Undoing → Option Undoing
unfolding add_unspent
unspend p u = elim (Undo.apply p u.items u.view) [
  | none ↦ none
  | some (items, v) ↦ add_unspent (get_output p v) items v u.pending
]

-- The inputs from the last to the first.
unfoldable pub unspend_inputs : List Outpoint → Undoing → Option Undoing
unfolding unspend
unspend_inputs [] u = some u
unspend_inputs (p ∷ ps) u = elim (unspend_inputs ps u) [ none ↦ none | some u' ↦ unspend p u' ]

-- The outputs from the last to the first.
unfoldable pub spend_outputs : List Output → ChainState → ChainState
spend_outputs [] s = s
spend_outputs (o ∷ os) s =
    let s' = spend_outputs os s in if is_unspendable o.script then s' else spend o s'

remove_created : Tx → ℤ → Undoing → Undoing
unfolding spend_outputs
remove_created tx height u = record {
  items = u.items;
  view = remove_tx tx height u.view;
  pending = spend_outputs tx.outputs u.pending;
}

disconnect_tx : Bool → Tx → ℤ → Undoing → Option Undoing
unfolding unspend_inputs remove_created
disconnect_tx first tx height u = elim (if first then some u else unspend_inputs (prevouts tx) u) [
  | none ↦ none
  | some u' ↦ some (remove_created tx height u')
]

-- The transactions from the last to the first.
unfoldable pub disconnect_txs : Bool → List Tx → ℤ → Undoing → Option Undoing
unfolding disconnect_tx
disconnect_txs first [] height u = some u
disconnect_txs first (tx ∷ txs) height u = elim (disconnect_txs false txs height u) [
  | none ↦ none
  | some u' ↦ disconnect_tx first tx height u'
]

unfoldable pub get_undo_coins : ℕ → ChainDb → List CoinEntry
get_undo_coins hash db = elim (db.undo hash) [ none ↦ [] | some cs ↦ Undo.from_raw_undo cs ]

-- The last assertion: the undo coins are used up.
finish : ChainDb → Undoing → Option ChainDb
finish db u = elim u.items [
  | [] ↦ some (record db { coins = apply_batch (save_view u.view) db.coins; pending = u.pending })
  | e ∷ es ↦ none
]

unfoldable pub disconnect_block : ChainEntry → Block → ChainDb → Option ChainDb
unfolding disconnect_txs finish get_undo_coins disconnect
disconnect_block entry block db =
    if db.spv
    then some db
    else elim (disconnect_txs true block.txs (pos entry.height) (record {
      items = get_undo_coins block.hash db;
      view = empty;
      pending = disconnect block db.pending;
    })) [ none ↦ none | some u ↦ finish db u ]
