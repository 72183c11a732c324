-- ===== src/Blockchain/Verify.antt =====
-- lib/blockchain/chain.js: `verifyInputs`. The functions of other files that it calls, and that do
-- not change the view, are the fields of `Checks`.
pub mod Sound
use litedoge_js.Prelude.{ℕ, ◌+◌, Bool, true, false, not, ◌&&◌, Option, none, some, List, [], ◌∷◌}
use litedoge_js.Prelude.{ltb, leb, if◌then◌else◌}
use litedoge_js.Prelude.Int.{ℤ, pos, negsuc, ◌+ℤ◌, ltb_ℤ}
use litedoge_js.Primitives.Tx.{Tx, is_coinbase}
use litedoge_js.Protocol.Consensus.{max_money, max_block_sigops_cost, get_proof_of_work_reward}
use litedoge_js.Coins.View.{View, empty, add_tx}
use litedoge_js.Coins.Spend.{Db, spend_inputs}
use litedoge_js.Blockchain.Block.{prevouts, get_output_value}
use litedoge_js.Blockchain.CheckInputs.{Reason, Checked, valid, rejected, check_inputs, fee_of}

pub record Checks : Type 0 where
  -- `tx.getSigopsCost(view, flags)`
  pub sigops_cost : Tx → View → ℕ
  -- `this.verifyLocks(prev, tx, view, flags)`
  pub verify_locks : Tx → View → Bool
  -- `tx.getMinFee()`
  pub min_fee : Tx → ℕ
  -- `tx.verifyAsync(view, flags, workers)`
  pub verify_script : Tx → View → Bool

pub data Refusal : Type 0 where
  inputs_missing_or_spent nonfinal sigops : Refusal
  bad_inputs : Reason → Refusal
  fee_out_of_range no_coinbase claimed_too_much script_failed : Refusal

pub data Verified : Type 0 where
  accepted : View → Verified
  refusal : Refusal → Verified

-- `fee === -1`: a BigInt is never strictly equal to a number.
unfoldable pub strictly_equals_number : ℤ → ℤ → Bool
strictly_equals_number bigint number = false

-- The error of a rejected fee, which the code throws only where its test of the fee holds.
abbrev reason_of : Checked → Refusal
reason_of (valid fee) = fee_out_of_range
reason_of (rejected r) = bad_inputs r

pub data Loop : Type 0 where
  done : View → ℕ → ℤ → Loop
  failed : Refusal → Loop

module _ (c : Checks) (db : Db) (height : ℕ) where
  unfoldable pub scripts_hold : List Tx → View → Bool
  scripts_hold [] v = true
  scripts_hold (tx ∷ txs) v = c.verify_script tx v && scripts_hold txs v

  -- The loop over the transactions after the first, with the sigops and the reward so far.
  unfoldable pub verify_txs : List Tx → View → ℕ → ℤ → Loop
  unfolding strictly_equals_number
  verify_txs [] v ops reward = done v ops reward
  verify_txs (tx ∷ txs) v ops reward =
      let (found, w) = spend_inputs db (prevouts tx) v in
      let ops' = ops + c.sigops_cost tx w in
      let checked = check_inputs tx w height (c.min_fee tx) in
      let reward' = reward +ℤ fee_of checked in
      let rest = verify_txs txs (add_tx tx (pos height) w) ops' reward' in
      if not found
      then failed inputs_missing_or_spent
      else if leb 2 tx.version && not (c.verify_locks tx w)
      then failed nonfinal
      else if ltb max_block_sigops_cost ops'
      then failed sigops
      else if strictly_equals_number (fee_of checked) (negsuc 0)
      then failed (reason_of checked)
      else if ltb_ℤ (pos max_money) reward'
      then failed fee_out_of_range
      else rest

  -- The checks after the loop. `cb` is the first transaction, whose outputs are what is claimed;
  -- `getClaimed` asserts that it is a coinbase.
  unfoldable pub conclude : Tx → List Tx → Loop → Verified
  unfolding scripts_hold
  conclude cb txs (failed r) = refusal r
  conclude cb txs (done v ops reward) =
      if not (is_coinbase cb)
      then refusal no_coinbase
      else if ltb_ℤ (reward +ℤ pos (get_proof_of_work_reward height)) (get_output_value cb)
      then refusal claimed_too_much
      else if not (scripts_hold txs v)
      then refusal script_failed
      else accepted v

  unfoldable pub verify_inputs : Tx → List Tx → Verified
  unfolding verify_txs conclude
  verify_inputs cb txs =
      let ops = c.sigops_cost cb empty in
      if ltb max_block_sigops_cost ops
      then refusal sigops
      else conclude cb txs (verify_txs txs (add_tx cb (pos height) empty) ops (pos 0))
