-- ===== src/Blockchain/Sanity.antt =====
-- lib/primitives/tx.js: `checkSanity` and `isFinal`, and the sizes and sigops that they count.
pub mod Sound
pub mod Duplicates
pub mod Final
use litedoge_js.Prelude.{
  ℕ, ◌+◌, ◌-◌, Bool, true, false, not, ◌&&◌, ◌||◌, Option, none, some, List, [], ◌∷◌, ltb, leb,
  ◌==◌, length, if◌then◌else◌,
}
use litedoge_js.Prelude.Int.{ℤ, pos, ◌+ℤ◌, ltb_ℤ}
use litedoge_js.Primitives.Tx.{
  Outpoint, Input, Output, Tx, is_null, is_empty, is_coinbase, is_coinstake,
}
use litedoge_js.Protocol.Consensus.{max_money}
use litedoge_js.Coins.Overlay.{same}
use litedoge_js.Script.Code
use litedoge_js.Script.Op.{Op, invalid, op}
use litedoge_js.Script.Bytes.{from_raw_script}
use litedoge_js.Blockchain.Block.{prevouts}

abbrev pub max_block_size : ℕ
max_block_size = 1_000_000

abbrev pub max_multisig_pubkeys : ℕ
max_multisig_pubkeys = 20

-- `getNormalSizes`: `size_varint` is the size of a length in the encoding package.
module _ (size_varint : ℕ → ℕ) where
  unfoldable pub sum_inputs_size : List Input → ℕ
  sum_inputs_size [] = 0
  sum_inputs_size (i ∷ is) =
      40 + size_varint (length i.script) + length i.script + sum_inputs_size is

  unfoldable pub sum_outputs_size : List Output → ℕ
  sum_outputs_size [] = 0
  sum_outputs_size (o ∷ os) =
      8 + size_varint (length o.script) + length o.script + sum_outputs_size os

  unfoldable pub get_normal_size : Tx → ℕ
  unfolding sum_inputs_size sum_outputs_size
  get_normal_size tx =
      4
      + 4
      + size_varint (length tx.inputs)
      + sum_inputs_size tx.inputs
      + size_varint (length tx.outputs)
      + sum_outputs_size tx.outputs
      + 4

-- The sigops of code whose last opcode was `last`; before the first one it is OP_0, which no test
-- tells from the code's -1.
unfoldable pub count_sigops : Bool → ℕ → List Op → ℕ
count_sigops accurate last [] = 0
count_sigops accurate last (invalid ∷ code) = 0
count_sigops accurate last (op v d ∷ code) =
    let rest = count_sigops accurate v code in
    if v == Code.op_checksig || v == Code.op_checksigverify
    then 1 + rest
    else if v == Code.op_checkmultisig || v == Code.op_checkmultisigverify
    then (if accurate && leb Code.op_1 last && leb last Code.op_16
        then last - 0x50 + rest
        else max_multisig_pubkeys + rest)
    else rest

unfoldable pub get_sigops : Bool → List Op → ℕ
unfolding count_sigops
get_sigops accurate code = count_sigops accurate 0 code

unfoldable pub input_sigops : List Input → ℕ
unfolding get_sigops from_raw_script
input_sigops [] = 0
input_sigops (i ∷ is) = get_sigops false (from_raw_script i.script) + input_sigops is

unfoldable pub output_sigops : List Output → ℕ
unfolding get_sigops from_raw_script
output_sigops [] = 0
output_sigops (o ∷ os) = get_sigops false (from_raw_script o.script) + output_sigops os

unfoldable pub get_legacy_sigops : Tx → ℕ
unfolding input_sigops output_sigops
get_legacy_sigops tx = input_sigops tx.inputs + output_sigops tx.outputs

pub data Insanity : Type 0 where
  vin_empty vout_empty oversize empty_user_outputs vout_negative vout_toolarge : Insanity
  txouttotal_toolarge inputs_duplicate cb_length prevout_null : Insanity

pub data Sanity : Type 0 where
  sane : Sanity
  insane : Insanity → Sanity

abbrev pub and_then : Sanity → Sanity → Sanity
and_then sane s = s
and_then (insane r) s = insane r

-- The loop over the outputs, with the total so far.
unfoldable pub check_outputs : Bool → List Output → ℤ → Sanity
check_outputs may_be_empty [] total = sane
check_outputs may_be_empty (o ∷ os) total =
    let rest = check_outputs may_be_empty os (total +ℤ o.value) in
    if is_empty o && not may_be_empty
    then insane empty_user_outputs
    else if ltb_ℤ o.value (pos 0)
    then insane vout_negative
    else if ltb_ℤ (pos max_money) o.value
    then insane vout_toolarge
    else if ltb_ℤ (total +ℤ o.value) (pos 0) || ltb_ℤ (pos max_money) (total +ℤ o.value)
    then insane txouttotal_toolarge
    else rest

-- The set of keys of the prevouts so far. `toKey` tells outpoints apart.
abbrev pub has_key : Outpoint → List Outpoint → Bool
has_key p [] = false
has_key p (q ∷ seen) = same q p || has_key p seen

unfoldable pub check_duplicates : List Outpoint → List Outpoint → Sanity
check_duplicates seen [] = sane
check_duplicates seen (p ∷ ps) =
    let rest = check_duplicates (p ∷ seen) ps in
    if has_key p seen then insane inputs_duplicate else rest

unfoldable pub check_nulls : List Outpoint → Sanity
check_nulls [] = sane
check_nulls (p ∷ ps) = let rest = check_nulls ps in if is_null p then insane prevout_null else rest

abbrev pub first_script_length : List Input → ℕ
first_script_length [] = 0
first_script_length (i ∷ is) = length i.script

unfoldable pub check_prevouts : Tx → Sanity
unfolding check_nulls
check_prevouts tx =
    let n = first_script_length tx.inputs in
    if is_coinbase tx
    then (if ltb n 2 || ltb 100 n then insane cb_length else sane)
    else check_nulls (prevouts tx)

-- `size` is what `getBaseSize` returns for the transaction.
unfoldable pub check_sanity : ℕ → Tx → Sanity
unfolding check_outputs check_duplicates check_prevouts
check_sanity size tx =
    let rest =
      and_then (check_outputs (is_coinbase tx || is_coinstake tx) tx.outputs (pos 0))
        (and_then (check_duplicates [] (prevouts tx)) (check_prevouts tx)) in
    if length tx.inputs == 0
    then insane vin_empty
    else if length tx.outputs == 0
    then insane vout_empty
    else if ltb max_block_size size
    then insane oversize
    else rest

abbrev pub locktime_threshold : ℕ
locktime_threshold = 500_000_000

unfoldable pub sequences_final : List Input → Bool
sequences_final [] = true
sequences_final (i ∷ is) = i.sequence == 0xffff_ffff && sequences_final is

unfoldable pub is_final : Tx → ℕ → ℕ → Bool
unfolding sequences_final
is_final tx height time =
    if tx.locktime == 0
    then true
    else if ltb tx.locktime (if ltb tx.locktime locktime_threshold then height else time)
    then true
    else sequences_final tx.inputs
