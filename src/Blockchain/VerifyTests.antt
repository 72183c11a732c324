-- ===== src/Blockchain/VerifyTests.antt =====
-- Runs of `verifyInputs`, one of them on a block that spends more than it has, and the theorems.
use litedoge_js.Prelude.{
  ℕ, ◌≤◌, ◌≡◌, ◌≢◌, refl, true, none, some, [], ◌∷◌, ◌&&◌, ◌==◌, if◌then◌else◌, All,
}
use litedoge_js.Prelude.Int.{pos, ◌+ℤ◌, ◌-ℤ◌, ◌≤ℤ◌}
use litedoge_js.Prelude.Map
use litedoge_js.Primitives.Tx.{
  Outpoint, Input, Output, Tx, is_unspendable, is_coinbase, is_coinstake,
}
use litedoge_js.Protocol.Consensus.{max_money, get_proof_of_work_reward}
use litedoge_js.Coins.Entry.{Stored, from_raw, from_tx_output}
use litedoge_js.Coins.Outputs
use litedoge_js.Coins.View.{View, empty, get_entry, add_entry, add_tx}
use litedoge_js.Coins.Spend.{Db, spend_inputs}
use litedoge_js.Blockchain.Block.{get_output_value}
use litedoge_js.Blockchain.CheckInputs.{
  premature_spend, fee_negative, valid, rejected, fee_of, check_inputs,
}
use litedoge_js.Blockchain.CheckInputs.Valid.{IsSpendable, input_value, check_inputs-valid}
use litedoge_js.Blockchain.Inputs.{update_inputs}
use litedoge_js.Blockchain.Verify.{
  Checks, Verified, accepted, refusal, bad_inputs, verify_inputs, scripts_hold,
}
use litedoge_js.Blockchain.Verify.Sound.{
  total_surplus, total_refusals, verify_inputs-update_inputs, verify_inputs-bounds_claim,
  verify_inputs-ne-bad_inputs,
}

abbrev pay : ℕ → Output
pay n = record { value = pos n; script = 0x51 ∷ [] }

-- A coinbase coin of height 3.
abbrev young_coin : Stored
young_coin = record { version = 1; height = pos 3; coinbase = true; output = pay 50 }

abbrev young_outpoint : Outpoint
young_outpoint = record { hash = 5; index = 0 }

abbrev coins : Db
coins h i = if h == 5 && i == 0 then some young_coin else none

abbrev spending : ℕ → ℕ → Input
spending h i = record {
  prevout = record { hash = h; index = i };
  script = [];
  sequence = 0xffff_ffff;
}

abbrev coinbase : Tx
coinbase = record {
  hash = 1;
  version = 1;
  inputs = spending 0 0xffff_ffff ∷ [];
  outputs = pay 1000 ∷ [];
  locktime = 0;
}

-- It spends the young coin of 50 and makes 7000.
abbrev overspend : Tx
overspend = record {
  hash = 2;
  version = 1;
  inputs = spending 5 0 ∷ [];
  outputs = pay 7000 ∷ [];
  locktime = 0;
}

abbrev lenient : Checks
lenient = record {
  sigops_cost = λ tx v. 1;
  verify_locks = λ tx v. true;
  min_fee = λ tx. 0;
  verify_script = λ tx v. true;
}

abbrev or_empty : Verified → View
or_empty (accepted v) = v
or_empty (refusal r) = empty

abbrev view : View
view = or_empty (verify_inputs lenient coins 8 coinbase (overspend ∷ []))

-- `checkInputs` refuses the transaction, and the block is accepted.
overspend_accepted : verify_inputs lenient coins 8 coinbase (overspend ∷ []) ≡ accepted view
unfolding verify_inputs spend_inputs add_tx get_entry Map.get Map.set Outputs.from_tx_outputs
    is_unspendable add_entry from_raw from_tx_output check_inputs get_proof_of_work_reward
    is_coinbase is_coinstake get_output_value fee_of ◌+ℤ◌ ◌-ℤ◌
overspend_accepted = refl

abbrev young_view : View
young_view = add_entry young_outpoint (from_raw young_coin) empty

overspend_refused_by_check : check_inputs overspend young_view 8 0 ≡ rejected premature_spend
unfolding check_inputs add_entry get_entry Map.get Map.set from_raw ◌-ℤ◌
overspend_refused_by_check = refl

-- At a mature height the fee is the reason.
overspend_fee : check_inputs overspend young_view 200 0 ≡ rejected fee_negative
unfolding check_inputs add_entry get_entry Map.get Map.set from_raw ◌-ℤ◌ is_coinstake
    get_output_value ◌+ℤ◌
overspend_fee = refl

verify_inputs-update_inputs_example :
    update_inputs coins (pos 8) (coinbase ∷ overspend ∷ []) ≡ some view
verify_inputs-update_inputs_example =
    verify_inputs-update_inputs lenient coins 8 coinbase (overspend ∷ []) view overspend_accepted

verify_inputs-bounds_claim_example :
    (is_coinbase coinbase ≡ true)
    × (scripts_hold lenient coins 8 (overspend ∷ []) view ≡ true)
    × (get_output_value coinbase
          +ℤ pos (total_refusals lenient coins 8 (overspend ∷ []) (add_tx coinbase (pos 8) empty))
        ≤ℤ total_surplus lenient coins 8 (overspend ∷ []) (add_tx coinbase (pos 8) empty)
          +ℤ pos (get_proof_of_work_reward 8))
verify_inputs-bounds_claim_example =
    verify_inputs-bounds_claim lenient coins 8 coinbase (overspend ∷ []) view overspend_accepted

verify_inputs-ne-bad_inputs_example :
    verify_inputs lenient coins 8 coinbase (overspend ∷ []) ≢ refusal (bad_inputs premature_spend)
verify_inputs-ne-bad_inputs_example =
    verify_inputs-ne-bad_inputs lenient coins 8 premature_spend coinbase (overspend ∷ [])

-- It spends the coin of 50 and makes 40.
abbrev modest : Tx
modest = record {
  hash = 2;
  version = 1;
  inputs = spending 5 0 ∷ [];
  outputs = pay 40 ∷ [];
  locktime = 0;
}

modest_valid : check_inputs modest young_view 200 5 ≡ valid (pos 10)
unfolding check_inputs add_entry get_entry Map.get Map.set from_raw ◌-ℤ◌ is_coinstake
    get_output_value ◌+ℤ◌
modest_valid = refl

check_inputs-valid_example :
    All (IsSpendable young_view 200) (young_outpoint ∷ [])
    × (input_value (young_outpoint ∷ []) young_view ≤ℤ pos max_money)
    × ((f : ℕ) × (pos 10 ≡ pos f)
        × (input_value (young_outpoint ∷ []) young_view ≡ get_output_value modest +ℤ pos f)
        × (5 ≤ f)
        × (f ≤ max_money))
check_inputs-valid_example =
    check_inputs-valid modest young_view 200 5 (pos 10) modest_valid (unfold is_coinstake in refl)
