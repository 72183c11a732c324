-- ===== src/Coins/Undo.antt =====
-- lib/coins/undocoins.js: the coins that a block spent, oldest first. `commit` writes them in that
-- order and empties the list.
use litedoge_js.Prelude.{Option, none, some, List, [], pop_last, map}
use litedoge_js.Primitives.Tx.{Outpoint}
use litedoge_js.Coins.Entry.{CoinEntry, Stored, to_raw, from_raw}
use litedoge_js.Coins.View.{View, add_entry}

unfoldable pub commit : View → List Stored × View
commit v = (map to_raw v.undo, record v { undo = [] })

unfoldable pub from_raw_undo : List Stored → List CoinEntry
from_raw_undo = map from_raw

-- `apply` pops the newest coin; `none` is its failed assertion that there is one.
unfoldable pub apply : Outpoint → List CoinEntry → View → Option (List CoinEntry × View)
apply p items v = elim (pop_last items) [
  | none ↦ none
  | some (rest, e) ↦ some (rest, add_entry p e v)
]
