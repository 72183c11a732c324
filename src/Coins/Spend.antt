-- ===== src/Coins/Spend.antt =====
-- lib/coins/coinview.js: `readCoin` and `spendInputs`. The inputs are read four at a time: all four
-- look into the view before any of their reads from the database returns, and each read from the
-- database makes a new entry, also for a prevout that the batch names twice.
pub mod Refine
pub mod Batch
pub mod Inputs
use litedoge_js.Prelude.{Bool, true, false, Option, none, some, List, [], ◌∷◌, ◌++◌, map, ℕ}
use litedoge_js.Prelude.{if◌then◌else◌}
use litedoge_js.Primitives.Tx.{Outpoint}
use litedoge_js.Coins.Entry.{CoinEntry, Stored, from_raw}
use litedoge_js.Coins.Outputs.{mark_spent}
use litedoge_js.Coins.View.{View, get_entry, add_entry}

-- The coin records of the database, by hash and index.
abbrev pub Db : Type 0
Db = ℕ → ℕ → Option Stored

-- `ChainDB.readCoin`
unfoldable pub db_coin : Db → Outpoint → Option CoinEntry
db_coin db p = elim (db p.hash p.index) [ none ↦ none | some s ↦ some (from_raw s) ]

unfoldable pub read_coin : Db → Outpoint → View → Option CoinEntry × View
unfolding db_coin
read_coin db p v = elim (get_entry p v) [
  | some e ↦ (some e, v)
  | none ↦ elim (db_coin db p) [ none ↦ (none, v) | some e ↦ (some e, add_entry p e v) ]
]

-- `readInputs`: whether all were found, and the view with what was read.
unfoldable pub read_inputs : Db → List Outpoint → View → Bool × View
unfolding read_coin
read_inputs db [] v = (true, v)
read_inputs db (p ∷ ps) v =
    let (coin, v') = read_coin db p v in
    let (found, v'') = read_inputs db ps v' in (elim coin [ none ↦ false | some e ↦ found ], v'')

-- What one of the pending reads resolves to: the view's own entry, a new one, or null.
pub data Job : Type 0 where
  cached : Outpoint → Job
  fetched : Outpoint → CoinEntry → Job
  missing : Outpoint → Job

unfoldable pub start : Db → View → Outpoint → Job
unfolding db_coin
start db v p = elim (get_entry p v) [
  | some e ↦ cached p
  | none ↦ elim (db_coin db p) [ none ↦ missing p | some e ↦ fetched p e ]
]

unfoldable pub add_fetched : List Job → View → View
add_fetched [] v = v
add_fetched (cached p ∷ js) v = add_fetched js v
add_fetched (fetched p e ∷ js) v = add_fetched js (add_entry p e v)
add_fetched (missing p ∷ js) v = add_fetched js v

-- `coin.spent = true` writes the entry that the view holds, and `undo.push` the same one.
unfoldable pub mark : Outpoint → CoinEntry → View → View
mark p e v =
    let w = add_entry p (mark_spent e) v in record w { undo = w.undo ++ (mark_spent e ∷ []) }

-- The loop over the resolved coins.
unfoldable pub settle : List Job → View → Bool × View
unfolding mark
settle [] v = (true, v)
settle (missing p ∷ js) v = (false, v)
settle (fetched p e ∷ js) v =
    let rest = settle js (mark p e v) in if e.spent then (false, v) else rest
settle (cached p ∷ js) v = elim (get_entry p v) [
  | none ↦ (false, v)
  | some e ↦ elim e.spent [ true ↦ (false, v) | false ↦ settle js (mark p e v) ]
]

unfoldable pub spend_batch : Db → List Outpoint → View → Bool × View
unfolding start add_fetched settle
spend_batch db ps v = let jobs = map (start db v) ps in settle jobs (add_fetched jobs v)

-- The rest of the inputs is read only if the batch before was spent.
unfoldable pub and_then : Bool × View → (View → Bool × View) → Bool × View
and_then (false, v) f = (false, v)
and_then (true, v) f = f v

unfoldable pub spend_inputs : Db → List Outpoint → View → Bool × View
unfolding spend_batch and_then
spend_inputs db (p ∷ q ∷ r ∷ s ∷ ps) v =
    and_then (spend_batch db (p ∷ q ∷ r ∷ s ∷ []) v) (λ w. spend_inputs db ps w)
spend_inputs db ps v = spend_batch db ps v
