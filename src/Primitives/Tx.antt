-- ===== src/Primitives/Tx.antt =====
-- lib/primitives/outpoint.js, input.js, output.js and tx.js: the data, and the tests that classify
-- a transaction. A value is a signed 64-bit integer on the wire. A hash is the number that its 32 bytes write; `hash` is what `tx.hash()` returns.
use litedoge_js.Prelude.{ℕ, Bool, true, false, ◌&&◌, not, List, [], ◌∷◌, ltb, leb, ◌==◌, length}
use litedoge_js.Prelude.Int.{ℤ, is_zero_ℤ}

pub record Outpoint : Type 0 where
  pub hash : ℕ
  pub index : ℕ

pub record Input : Type 0 where
  pub prevout : Outpoint
  pub script : List ℕ
  pub sequence : ℕ

pub record Output : Type 0 where
  pub value : ℤ
  pub script : List ℕ

pub record Tx : Type 0 where
  pub hash : ℕ
  pub version : ℕ
  pub inputs : List Input
  pub outputs : List Output
  pub locktime : ℕ

-- `ZERO_HASH` is the number 0.
unfoldable pub is_null : Outpoint → Bool
is_null p = p.index == 0xffff_ffff && p.hash == 0

unfoldable pub is_empty : Output → Bool
is_empty o = is_zero_ℤ o.value && length o.script == 0

first_input_is_null : List Input → Bool
unfolding is_null
first_input_is_null [] = false
first_input_is_null (i ∷ is) = is_null i.prevout

first_output_is_empty : List Output → Bool
unfolding is_empty
first_output_is_empty [] = false
first_output_is_empty (o ∷ os) = is_empty o

unfoldable pub is_coinbase : Tx → Bool
unfolding first_input_is_null
is_coinbase tx = length tx.inputs == 1 && first_input_is_null tx.inputs && leb 1 (length tx.outputs)

unfoldable pub is_coinstake : Tx → Bool
unfolding first_input_is_null first_output_is_empty
is_coinstake tx =
    leb 1 (length tx.inputs)
    && not (first_input_is_null tx.inputs)
    && ltb 1 (length tx.outputs)
    && first_output_is_empty tx.outputs

-- lib/script/script.js: the first byte is OP_RETURN, or the script is over MAX_SCRIPT_SIZE.
starts_with_return : List ℕ → Bool
starts_with_return [] = false
starts_with_return (b ∷ bs) = b == 0x6a

unfoldable pub is_unspendable : List ℕ → Bool
unfolding starts_with_return
is_unspendable raw = elim (ltb 10000 (length raw)) [ true ↦ true | false ↦ starts_with_return raw ]
