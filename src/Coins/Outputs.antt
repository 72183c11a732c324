-- ===== src/Coins/Outputs.antt =====
-- lib/coins/coins.js: the coins of one transaction, by output index. A method that changes an entry
-- in place returns the coins with that entry written back.
use litedoge_js.Prelude.{ℕ, suc, Bool, true, false, not, Option, none, some, List, [], ◌∷◌}
use litedoge_js.Prelude.{if◌then◌else◌}
use litedoge_js.Prelude.Int.{ℤ}
use litedoge_js.Prelude.Map
use litedoge_js.Prelude.Map.{Map}
use litedoge_js.Primitives.Tx.{Outpoint, Output, Tx, is_unspendable}
use litedoge_js.Coins.Entry.{
  CoinEntry, Coin, from_output, from_coin, to_coin, from_tx, from_tx_output,
}

abbrev pub Coins : Type 0
Coins = Map CoinEntry

unfoldable pub add : ℕ → CoinEntry → Coins → Coins
add = Map.set

unfoldable pub add_output : ℕ → Output → Coins → Coins
unfolding add
add_output index o = add index (from_output o)

-- `none` is the failed assertion of `CoinEntry.fromTX`.
unfoldable pub add_index : Tx → ℕ → ℤ → Coins → Option Coins
unfolding add
add_index tx index height cs = elim (from_tx tx index height) [
  | none ↦ none
  | some e ↦ some (add index e cs)
]

unfoldable pub add_coin : Coin → Coins → Coins
unfolding add
add_coin c = add c.index (from_coin c)

unfoldable pub has : ℕ → Coins → Bool
has index cs = elim (Map.get index cs) [ none ↦ false | some e ↦ true ]

unfoldable pub is_unspent : ℕ → Coins → Bool
is_unspent index cs = elim (Map.get index cs) [ none ↦ false | some e ↦ not e.spent ]

abbrev pub get : ℕ → Coins → Option CoinEntry
get = Map.get

unfoldable pub get_output : ℕ → Coins → Option Output
get_output index cs = elim (Map.get index cs) [ none ↦ none | some e ↦ some e.output ]

unfoldable pub get_coin : Outpoint → Coins → Option Coin
get_coin p cs = elim (Map.get p.index cs) [ none ↦ none | some e ↦ some (to_coin p e) ]

abbrev pub mark_spent : CoinEntry → CoinEntry
mark_spent e = record e { spent = true }

unfoldable pub spend : ℕ → Coins → Option CoinEntry × Coins
spend index cs = elim (Map.get index cs) [
  | none ↦ (none, cs)
  | some e ↦ if e.spent then (none, cs) else (some (mark_spent e), Map.set index (mark_spent e) cs)
]

unfoldable pub remove : ℕ → Coins → Option CoinEntry × Coins
remove index cs = elim (Map.get index cs) [
  | none ↦ (none, cs)
  | some e ↦ (some e, Map.delete index cs)
]

unfoldable pub is_empty : Coins → Bool
is_empty [] = true
is_empty (e ∷ es) = false

-- The loop of `fromTX` from output `i` on.
unfoldable pub from_outputs : Tx → ℤ → ℕ → List Output → Coins → Coins
from_outputs tx height i [] cs = cs
from_outputs tx height i (o ∷ os) cs =
    from_outputs tx height (suc i) os
      (if is_unspendable o.script then cs else Map.set i (from_tx_output tx height o) cs)

unfoldable pub from_tx_outputs : Tx → ℤ → Coins
unfolding from_outputs
from_tx_outputs tx height = from_outputs tx height 0 tx.outputs []
