-- ===== src/Coins/View.antt =====
-- lib/coins/coinview.js: coins by transaction hash, and the undo list. The methods ending in `For`
-- are these ones at `input.prevout`.
use litedoge_js.Prelude.{Bool, false, Option, none, some, List, [], ◌∷◌, ◌++◌, ℕ}
use litedoge_js.Prelude.Int.{ℤ, negsuc}
use litedoge_js.Prelude.Map
use litedoge_js.Prelude.Map.{Map}
use litedoge_js.Primitives.Tx.{Outpoint, Output, Tx}
use litedoge_js.Coins.Entry.{CoinEntry, Coin}
use litedoge_js.Coins.Outputs
use litedoge_js.Coins.Outputs.{Coins, mark_spent}

pub record View : Type 0 where
  pub coins : Map Coins
  pub undo : List CoinEntry

abbrev pub empty : View
empty = record { coins = []; undo = [] }

unfoldable pub add : ℕ → Coins → View → View
add hash cs v = record v { coins = Map.set hash cs v.coins }

-- `ensure`: the coins of a hash, which are new where there were none.
abbrev ensure : Option Coins → Coins
ensure none = []
ensure (some cs) = cs

unfoldable pub add_entry : Outpoint → CoinEntry → View → View
unfolding add
add_entry p e v = add p.hash (Map.set p.index e (ensure (Map.get p.hash v.coins))) v

unfoldable pub add_tx : Tx → ℤ → View → View
unfolding add
add_tx tx height v = add tx.hash (Outputs.from_tx_outputs tx height) v

unfoldable pub mark_all_spent : Coins → Coins
mark_all_spent [] = []
mark_all_spent ((i, e) ∷ cs) = (i, mark_spent e) ∷ mark_all_spent cs

unfoldable pub remove_tx : Tx → ℤ → View → View
unfolding add mark_all_spent
remove_tx tx height v = add tx.hash (mark_all_spent (Outputs.from_tx_outputs tx height)) v

unfoldable pub get_entry : Outpoint → View → Option CoinEntry
get_entry p v = elim (Map.get p.hash v.coins) [ none ↦ none | some cs ↦ Map.get p.index cs ]

unfoldable pub has_entry : Outpoint → View → Bool
has_entry p v = elim (Map.get p.hash v.coins) [ none ↦ false | some cs ↦ Outputs.has p.index cs ]

unfoldable pub is_unspent : Outpoint → View → Bool
is_unspent p v = elim (Map.get p.hash v.coins) [
  | none ↦ false
  | some cs ↦ Outputs.is_unspent p.index cs
]

unfoldable pub get_output : Outpoint → View → Option Output
get_output p v = elim (Map.get p.hash v.coins) [
  | none ↦ none
  | some cs ↦ Outputs.get_output p.index cs
]

unfoldable pub get_coin : Outpoint → View → Option Coin
get_coin p v = elim (Map.get p.hash v.coins) [ none ↦ none | some cs ↦ Outputs.get_coin p cs ]

unfoldable pub get_height : Outpoint → View → ℤ
get_height p v = elim (get_entry p v) [ none ↦ negsuc 0 | some e ↦ e.height ]

unfoldable pub is_coinbase : Outpoint → View → Bool
is_coinbase p v = elim (get_entry p v) [ none ↦ false | some e ↦ e.coinbase ]

unfoldable pub is_coinstake : Outpoint → View → Bool
is_coinstake p v = elim (get_entry p v) [ none ↦ false | some e ↦ e.coinstake ]

-- The undo list gets the very entry that was marked.
push_spent : View → ℕ → Option CoinEntry × Coins → Option CoinEntry × View
push_spent v hash (none, cs) = (none, v)
push_spent v hash (some e, cs) =
    (some e, record { coins = Map.set hash cs v.coins; undo = v.undo ++ (e ∷ []) })

unfoldable pub spend_entry : Outpoint → View → Option CoinEntry × View
unfolding push_spent
spend_entry p v = elim (Map.get p.hash v.coins) [
  | none ↦ (none, v)
  | some cs ↦ push_spent v p.hash (Outputs.spend p.index cs)
]

put_back : View → ℕ → Option CoinEntry × Coins → Option CoinEntry × View
put_back v hash (e, cs) = (e, record v { coins = Map.set hash cs v.coins })

unfoldable pub remove_entry : Outpoint → View → Option CoinEntry × View
unfolding put_back
remove_entry p v = elim (Map.get p.hash v.coins) [
  | none ↦ (none, v)
  | some cs ↦ put_back v p.hash (Outputs.remove p.index cs)
]
