-- ===== src/Blockchain/Utxo.antt =====
-- The abstract coin state: which coins are unspent. A transaction spends its inputs in turn and
-- makes its outputs; a block is undone from its last transaction to its first.
pub mod Inverse
pub mod Refine
use litedoge_js.Prelude.{
  ℕ, ◌≡◌, Bool, true, false, Option, none, some, List, [], ◌∷◌, ◌==◌, pop_last,
}
use litedoge_js.Prelude.{if◌then◌else◌}
use litedoge_js.Prelude.Int.{ℤ}
use litedoge_js.Primitives.Tx.{Outpoint, Output, Tx}
use litedoge_js.Coins.Entry.{Stored, to_raw, from_tx_output}
use litedoge_js.Coins.Overlay.{same, spendable}
use litedoge_js.Coins.Spend.Refine.{Utxo, spend_each, take_out}
use litedoge_js.Blockchain.Block.{prevouts}

abbrev pub as_stored : Tx → ℤ → Option Output → Option Stored
as_stored tx height none = none
as_stored tx height (some o) = some (to_raw (from_tx_output tx height o))

abbrev pub make_coins : Tx → ℤ → Utxo → Utxo
make_coins tx height s h i =
    if tx.hash == h then as_stored tx height (spendable tx.outputs i) else s h i

abbrev pub remove_coins : Tx → Utxo → Utxo
remove_coins tx s h i = if tx.hash == h then none else s h i

abbrev pub put_back : Outpoint → Stored → Utxo → Utxo
put_back p c s h i = if same p (record { hash = h; index = i }) then some c else s h i

-- A coin state with the coins spent so far.
abbrev pub Ledger : Type 0
Ledger = Utxo × List Stored

abbrev pub make : Tx → ℤ → Ledger → Ledger
make tx height (s, us) = (make_coins tx height s, us)

unfoldable pub apply_txs : Bool → ℤ → List Tx → Ledger → Option Ledger
apply_txs first height [] l = some l
apply_txs first height (tx ∷ txs) l =
    elim (if first then some l else spend_each (prevouts tx) l.0 l.1) [
      | none ↦ none
      | some l' ↦ apply_txs false height txs (make tx height l')
    ]

unfoldable pub unput : Outpoint → Ledger → Option Ledger
unput p l = elim (pop_last l.1) [ none ↦ none | some (us, c) ↦ some (put_back p c l.0, us) ]

unfoldable pub unspend_each : List Outpoint → Ledger → Option Ledger
unfolding unput
unspend_each [] l = some l
unspend_each (p ∷ ps) l = elim (unspend_each ps l) [ none ↦ none | some l' ↦ unput p l' ]

abbrev pub unmake : Tx → Ledger → Ledger
unmake tx (s, us) = (remove_coins tx s, us)

unfoldable pub undo_tx : Bool → Tx → Ledger → Option Ledger
unfolding unspend_each
undo_tx first tx l = elim (if first then some l else unspend_each (prevouts tx) l) [
  | none ↦ none
  | some l' ↦ some (unmake tx l')
]

unfoldable pub undo_txs : Bool → List Tx → Ledger → Option Ledger
unfolding undo_tx
undo_txs first [] l = some l
undo_txs first (tx ∷ txs) l = elim (undo_txs false txs l) [
  | none ↦ none
  | some l' ↦ undo_tx first tx l'
]
