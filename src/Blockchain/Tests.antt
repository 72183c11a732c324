-- ===== src/Blockchain/Tests.antt =====
-- Runs of the coin state on a small block, and the theorems at it.
use litedoge_js.Prelude.{ℕ, ◌≡◌, refl, arith, true, false, Option, none, some, [], ◌∷◌, map}
use litedoge_js.Prelude.{if◌then◌else◌, ◌&&◌, ◌==◌}
use litedoge_js.Prelude.Int.{pos}
use litedoge_js.Prelude.Map
use litedoge_js.Primitives.Tx.{Outpoint, Input, Output, Tx, is_unspendable}
use litedoge_js.Coins.Entry.{Stored, to_raw, from_raw, from_tx_output}
use litedoge_js.Coins.Outputs
use litedoge_js.Coins.View.{View, empty, get_entry, add_entry, add_tx, get_output}
use litedoge_js.Coins.Spend.{Db, spend_inputs}
use litedoge_js.Coins.Spend.Refine.{Agrees, spend_each}
use litedoge_js.Coins.Overlay.{overlay}
use litedoge_js.Coins.Spend.Inputs.{spend_inputs-refines, spend_inputs-accepts_duplicate}
use litedoge_js.Blockchain.Block.{Block, ChainEntry, is_genesis, prevouts}
use litedoge_js.Blockchain.Inputs.{update_inputs}
use litedoge_js.Blockchain.ChainDb.{ChainDb, apply_op, connect_block, disconnect_block}
use litedoge_js.Blockchain.ChainDb.Reorg.{disconnect-connect, update_inputs-refines}
use litedoge_js.Blockchain.Utxo.{apply_txs}
use litedoge_js.Blockchain.Utxo.Refine.{ResultShows, HaveDistinctInputs}
use litedoge_js.Blockchain.Utxo.Inverse.{AreNew, HasDistinctHashes}

abbrev pay : ℕ → Output
pay n = record { value = pos n; script = 0x51 ∷ [] }

abbrev old_coin : Stored
old_coin = record { version = 1; height = pos 3; coinbase = false; output = pay 50 }

-- One coin: output 0 of transaction 5.
abbrev coins : Db
coins h i = if h == 5 && i == 0 then some old_coin else none

abbrev spending : ℕ → ℕ → Input
spending h i = record {
  prevout = record { hash = h; index = i };
  script = [];
  sequence = 0xffff_ffff;
}

abbrev null_input : Input
null_input = spending 0 0xffff_ffff

abbrev coinbase : Tx
coinbase = record {
  hash = 1;
  version = 1;
  inputs = null_input ∷ [];
  outputs = pay 1000 ∷ record { value = pos 0; script = 0x6a ∷ [] } ∷ [];
  locktime = 0;
}

abbrev payment : Tx
payment = record {
  hash = 2;
  version = 1;
  inputs = spending 5 0 ∷ [];
  outputs = pay 20 ∷ pay 29 ∷ [];
  locktime = 0;
}

-- It spends an output of the same block.
abbrev chained : Tx
chained = record {
  hash = 3;
  version = 1;
  inputs = spending 2 1 ∷ [];
  outputs = pay 28 ∷ [];
  locktime = 0;
}

abbrev block : Block
block = record { hash = 100; txs = coinbase ∷ payment ∷ chained ∷ [] }

abbrev entry : ChainEntry
entry = record { hash = 100; prev_block = 99; version = 1; time = 0; height = 8; chaintrust = 0 }

abbrev chain : ChainDb
chain = record {
  spv = false;
  coins = coins;
  undo = λ h. none;
  pending = record { tip = 99; tx = pos 9; coin = pos 1; value = pos 50 };
}

abbrev or_empty : Option View → View
or_empty none = empty
or_empty (some v) = v

abbrev or_chain : Option ChainDb → ChainDb
or_chain none = chain
or_chain (some db) = db

abbrev coins_of : Option ChainDb → Db
coins_of o = (or_chain o).coins

abbrev old_outpoint : Outpoint
old_outpoint = record { hash = 5; index = 0 }

distinct_inputs : HaveDistinctInputs block.txs
distinct_inputs = ((tt, tt), ((tt, tt), ((tt, tt), tt)))

distinct_hashes : HasDistinctHashes block.txs
distinct_hashes = ((refl, (refl, tt)), ((refl, tt), (tt, tt)))

new_hashes : AreNew coins block.txs
new_hashes = (λ i. refl, ((λ i. refl), ((λ i. refl), tt)))

abbrev view : View
view = or_empty (update_inputs coins (pos 8) block.txs)

updated_lem : update_inputs coins (pos 8) block.txs ≡ some view
unfolding update_inputs spend_inputs add_tx get_entry Map.get Map.set Outputs.from_tx_outputs
    is_unspendable add_entry from_raw from_tx_output
updated_lem = refl

connected_lem :
    connect_block entry block view chain ≡ some (or_chain (connect_block entry block view chain))
unfolding update_inputs spend_inputs add_tx get_entry Map.get Map.set Outputs.from_tx_outputs
    is_unspendable add_entry from_raw from_tx_output connect_block is_genesis get_output
    Outputs.get_output
connected_lem = refl

-- The old coin, the chained one and the unspendable output are not there after the block.
connected_coins :
    (coins_of (connect_block entry block view chain) 5 0 ≡ none)
    × (coins_of (connect_block entry block view chain) 2 1 ≡ none)
    × (coins_of (connect_block entry block view chain) 1 1 ≡ none)
unfolding update_inputs spend_inputs add_tx get_entry Map.get Map.set Outputs.from_tx_outputs
    is_unspendable add_entry from_raw from_tx_output connect_block is_genesis get_output
    Outputs.get_output apply_op
connected_coins = (refl, refl, refl)

disconnect-connect_example :
    (db₂ : ChainDb) × (disconnect_block entry block
        (or_chain (connect_block entry block view chain))
      ≡ some db₂)
    × ((h i : ℕ) → db₂.coins h i ≡ coins h i)
disconnect-connect_example =
    disconnect-connect entry block view chain (or_chain (connect_block entry block view chain)) refl
      (unfold is_genesis in refl) distinct_inputs distinct_hashes new_hashes (λ e. refl) updated_lem
      connected_lem

update_inputs-refines_example :
    ResultShows coins
      (update_inputs coins (pos 8) block.txs)
      (apply_txs true (pos 8) block.txs (coins, []))
update_inputs-refines_example =
    update_inputs-refines coins (pos 8) block.txs distinct_inputs new_hashes

spend_inputs-refines_example :
    Agrees coins
      (spend_inputs coins (prevouts payment) empty)
      (spend_each (prevouts payment) (overlay empty coins) [])
spend_inputs-refines_example = spend_inputs-refines coins (prevouts payment) empty (tt, tt)

spend_inputs-accepts_duplicate_example :
    ((spend_inputs coins (old_outpoint ∷ old_outpoint ∷ []) empty).0 ≡ true)
    × (map to_raw (spend_inputs coins (old_outpoint ∷ old_outpoint ∷ []) empty).1.undo
        ≡ old_coin ∷ old_coin ∷ [])
spend_inputs-accepts_duplicate_example =
    spend_inputs-accepts_duplicate coins empty (old_outpoint ∷ old_outpoint ∷ [])
      (old_coin ∷ old_coin ∷ []) (omega arith)
      (unfold get_entry Map.get in (refl, refl, (refl, refl, tt)))
