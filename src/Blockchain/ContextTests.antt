-- ===== src/Blockchain/ContextTests.antt =====
-- A block that `verifyContext` accepts, and the theorems about its checks.
use litedoge_js.Prelude.{
  ℕ, ◌+◌, ◌≤◌, ◌≡◌, refl, true, false, Option, none, some, List, [], ◌∷◌, ◌&&◌, ◌==◌, if◌then◌else◌,
  All, map, drop,
}
use litedoge_js.Prelude.Int.{pos, ◌+ℤ◌, ◌-ℤ◌}
use litedoge_js.Prelude.Map
use litedoge_js.Primitives.Tx.{Input, Output, Tx, is_unspendable, is_coinbase, is_coinstake}
use litedoge_js.Protocol.Consensus.{get_proof_of_work_reward, max_block_sigops_cost}
use litedoge_js.Coins.Entry.{Stored, to_raw, from_raw, from_tx_output}
use litedoge_js.Coins.Outputs
use litedoge_js.Coins.View.{View, empty, get_entry, add_entry, add_tx}
use litedoge_js.Coins.Spend.{Db, spend_inputs}
use litedoge_js.Coins.Overlay.{overlay}
use litedoge_js.Blockchain.Block.{Block, get_output_value}
use litedoge_js.Blockchain.CheckInputs.{fee_of, check_inputs}
use litedoge_js.Blockchain.ChainDb.Save.{IsWellFormed}
use litedoge_js.Blockchain.Utxo.{apply_txs}
use litedoge_js.Blockchain.Verify.{Checks, verify_inputs}
use litedoge_js.Blockchain.Sanity.{is_final, check_sanity, get_legacy_sigops}
use litedoge_js.Blockchain.Sanity.Sound.{IsSane}
use litedoge_js.Blockchain.Body.{Header, good, check_body}
use litedoge_js.Blockchain.Body.Sound.{block_sigops, check_body-good}
use litedoge_js.Blockchain.Context.{
  Around, Outcome, passed, thrown, verify_duplicates, verify, verify_context,
}
use litedoge_js.Blockchain.Context.Sound.{HasOnlyOutputs, verify_context-apply_txs}

abbrev pay : ℕ → Output
pay n = record { value = pos n; script = 0x51 ∷ [] }

abbrev old_coin : Stored
old_coin = record { version = 1; height = pos 3; coinbase = false; output = pay 50 }

abbrev coins : Db
coins h i = if h == 5 && i == 0 then some old_coin else none

abbrev spending : ℕ → ℕ → List ℕ → Input
spending h i script = record {
  prevout = record { hash = h; index = i };
  script = script;
  sequence = 0xffff_ffff;
}

abbrev coinbase : Tx
coinbase = record {
  hash = 1;
  version = 1;
  inputs = spending 0 0xffff_ffff (0x51 ∷ 0x52 ∷ []) ∷ [];
  outputs = pay 1000 ∷ [];
  locktime = 0;
}

abbrev payment : Tx
payment = record {
  hash = 2;
  version = 1;
  inputs = spending 5 0 [] ∷ [];
  outputs = pay 40 ∷ [];
  locktime = 0;
}

abbrev block : Block
block = record { hash = 100; txs = coinbase ∷ payment ∷ [] }

abbrev header : Header
header = record { hash = 100; prev_block = 99; merkle_root = 7; time = 1000; bits = 4; size = 250 }

abbrev around : Around
around = record {
  prev_hash = 99;
  prev_height = 199;
  checkpoint_holds = true;
  historical = false;
  target = 4;
  mtp = 900;
  now = 950;
  has_mtp = false;
}

abbrev size_of : Tx → ℕ
size_of tx = 100

abbrev create_root : List ℕ → Option ℕ
create_root leaves = some 7

abbrev checks : Checks
checks = record {
  sigops_cost = λ tx v. 1;
  verify_locks = λ tx v. true;
  min_fee = λ tx. 5;
  verify_script = λ tx v. true;
}

abbrev or_empty : Outcome View → View
or_empty (passed v) = v
or_empty (thrown r) = empty

abbrev view : View
view = or_empty (verify_context size_of create_root checks coins none true around header block)

block_accepted :
    verify_context size_of create_root checks coins none true around header block ≡ passed view
unfolding verify_context verify_duplicates verify check_body is_coinbase is_coinstake check_sanity
    get_legacy_sigops is_final verify_inputs spend_inputs add_tx get_entry Map.get Map.set
    Outputs.from_tx_outputs is_unspendable add_entry from_raw from_tx_output check_inputs
    get_proof_of_work_reward get_output_value fee_of ◌+ℤ◌ ◌-ℤ◌
block_accepted = refl

verify_accepted : verify size_of create_root true around header block ≡ passed tt
unfolding verify check_body is_coinbase is_coinstake check_sanity get_legacy_sigops is_final ◌+ℤ◌
verify_accepted = refl

body_accepted : check_body size_of create_root header block ≡ good
unfolding check_body is_coinbase is_coinstake check_sanity get_legacy_sigops ◌+ℤ◌
body_accepted = refl

check_body-good_example :
    (cb : Tx) × (rest : List Tx) × (block.txs ≡ cb ∷ rest)
    × (is_coinbase cb ≡ true)
    × All (λ tx. is_coinbase tx ≡ false) rest
    × All (λ tx. is_coinstake tx ≡ false) (drop 1 rest)
    × All (λ tx. IsSane (size_of tx) tx) block.txs
    × (block_sigops block.txs ≤ max_block_sigops_cost)
    × (create_root (map (λ (tx : Tx). tx.hash) block.txs) ≡ some header.merkle_root)
check_body-good_example = check_body-good size_of create_root header block body_accepted

only_outputs : HasOnlyOutputs coins block.txs
only_outputs = ((λ i h. refl), ((λ i h. refl), tt))

verify_context-apply_txs_example :
    IsWellFormed view
    × (apply_txs true (pos (around.prev_height + 1)) block.txs (coins, [])
        ≡ some (overlay view coins, map to_raw view.undo))
verify_context-apply_txs_example =
    verify_context-apply_txs size_of create_root checks coins around header block view
      block_accepted refl only_outputs
