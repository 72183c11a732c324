-- ===== src/Blockchain/Block.antt =====
-- lib/primitives/block.js and lib/blockchain/chainentry.js, as far as the coin state reads them.
use litedoge_js.Prelude.{ℕ, List, [], ◌∷◌, map, Bool, ◌==◌}
use litedoge_js.Prelude.Int.{ℤ, pos, ◌+ℤ◌}
use litedoge_js.Primitives.Tx.{Outpoint, Input, Output, Tx}

pub record Block : Type 0 where
  pub hash : ℕ
  pub txs : List Tx

pub record ChainEntry : Type 0 where
  pub hash : ℕ
  pub prev_block : ℕ
  pub version : ℕ
  pub time : ℕ
  pub height : ℕ
  pub chaintrust : ℕ

unfoldable pub is_genesis : ChainEntry → Bool
is_genesis e = e.height == 0

abbrev pub prevouts : Tx → List Outpoint
prevouts tx = map (λ (i : Input). i.prevout) tx.inputs

unfoldable pub sum_values : List Output → ℤ
sum_values [] = pos 0
sum_values (o ∷ os) = o.value +ℤ sum_values os

unfoldable pub get_output_value : Tx → ℤ
unfolding sum_values
get_output_value tx = sum_values tx.outputs
