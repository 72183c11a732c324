-- ===== src/Blockchain/Inputs.antt =====
-- lib/blockchain/chain.js: `updateInputs`.
use litedoge_js.Prelude.{true, false, Option, none, some, List, [], ◌∷◌}
use litedoge_js.Prelude.Int.{ℤ}
use litedoge_js.Primitives.Tx.{Tx}
use litedoge_js.Coins.View.{View, empty, add_tx}
use litedoge_js.Coins.Spend.{Db, spend_inputs}
use litedoge_js.Blockchain.Block.{prevouts}

-- The transactions after the first: spend the inputs, then add the coins. `none` is the error that
-- an input is missing or spent.
unfoldable pub update_txs : Db → ℤ → List Tx → View → Option View
update_txs db height [] v = some v
update_txs db height (tx ∷ txs) v =
    let (found, w) = spend_inputs db (prevouts tx) v in
    elim found [ false ↦ none | true ↦ update_txs db height txs (add_tx tx height w) ]

unfoldable pub update_inputs : Db → ℤ → List Tx → Option View
unfolding update_txs
update_inputs db height [] = some empty
update_inputs db height (cb ∷ txs) = update_txs db height txs (add_tx cb height empty)
