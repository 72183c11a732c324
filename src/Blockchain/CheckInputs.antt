-- ===== src/Blockchain/CheckInputs.antt =====
-- lib/primitives/tx.js: `checkInputs`, the fee of a transaction over a coin view.
pub mod Valid
pub mod Surplus
use litedoge_js.Prelude.{ℕ, ◌+◌, Bool, ◌||◌, Option, none, some, List, [], ◌∷◌, ltb, if◌then◌else◌}
use litedoge_js.Prelude.Int.{ℤ, pos, negsuc, ◌+ℤ◌, ◌-ℤ◌, ltb_ℤ}
use litedoge_js.Primitives.Tx.{Outpoint, Tx, is_coinstake}
use litedoge_js.Protocol.Consensus.{max_money, coinbase_maturity}
use litedoge_js.Coins.Entry.{CoinEntry}
use litedoge_js.Coins.View.{View, get_entry}
use litedoge_js.Blockchain.Block.{prevouts, get_output_value}

-- The reason strings. Both premature spends read 'coinstake': `+` binds tighter than `?:`.
pub data Reason : Type 0 where
  missing_or_spent premature_spend input_values_out_of_range : Reason
  fee_negative fee_not_enough fee_out_of_range : Reason

pub data Checked : Type 0 where
  valid : ℤ → Checked
  rejected : Reason → Checked

-- The first element of the array that the code returns: a rejection has the fee -1n.
unfoldable pub fee_of : Checked → ℤ
fee_of (valid fee) = fee
fee_of (rejected r) = negsuc 0

unfoldable pub is_immature : CoinEntry → ℕ → Bool
is_immature e height =
    if e.coinbase || e.coinstake
    then ltb_ℤ (pos height -ℤ e.height) (pos coinbase_maturity)
    else ltb 0 0

-- The loop over the inputs, with the total so far.
pub data Total : Type 0 where
  total : ℤ → Total
  refused : Reason → Total

unfoldable pub sum_inputs : List Outpoint → View → ℕ → ℤ → Total
unfolding is_immature
sum_inputs [] v height acc = total acc
sum_inputs (p ∷ ps) v height acc = elim (get_entry p v) [
  | none ↦ refused missing_or_spent
  | some e ↦
      let rest = sum_inputs ps v height (acc +ℤ e.output.value) in
      if is_immature e height
      then refused premature_spend
      else if ltb_ℤ e.output.value (pos 0) || ltb_ℤ (pos max_money) e.output.value
      then refused input_values_out_of_range
      else if ltb_ℤ (acc +ℤ e.output.value) (pos 0) || ltb_ℤ (pos max_money) (acc +ℤ e.output.value)
      then refused input_values_out_of_range
      else rest
]

-- `min_fee` is what `getMinFee` returns for the transaction.
unfoldable pub check_fee : ℕ → ℤ → ℤ → Checked
check_fee min_fee sum value =
    let fee = sum -ℤ value in
    if ltb_ℤ fee (pos 0)
    then rejected fee_negative
    else if ltb_ℤ fee (pos min_fee)
    then rejected fee_not_enough
    else if ltb_ℤ (pos max_money) fee
    then rejected fee_out_of_range
    else valid fee

unfoldable pub check_inputs : Tx → View → ℕ → ℕ → Checked
unfolding sum_inputs check_fee
check_inputs tx v height min_fee = elim (sum_inputs (prevouts tx) v height (pos 0)) [
  | refused r ↦ rejected r
  | total sum ↦
      if is_coinstake tx then valid (pos 0) else check_fee min_fee sum (get_output_value tx)
]
