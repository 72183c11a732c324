-- ===== src/Blockchain/Body.antt =====
-- lib/primitives/block.js: `checkBody`.
pub mod Sound
use litedoge_js.Prelude.{
  ℕ, suc, ◌+◌, Bool, true, false, not, ◌&&◌, ◌||◌, Option, none, some, List, [], ◌∷◌, map, ltb, leb,
  ◌==◌, length, if◌then◌else◌,
}
use litedoge_js.Primitives.Tx.{Output, Tx, is_empty, is_coinbase, is_coinstake}
use litedoge_js.Protocol.Consensus.{max_block_sigops_cost}
use litedoge_js.Blockchain.Block.{Block}
use litedoge_js.Blockchain.Sanity.{
  Insanity, Sanity, sane, insane, check_sanity, get_legacy_sigops, max_block_size,
}

-- What `checkBody` reads of a block beside its transactions; `size` is what `getBaseSize` returns.
pub record Header : Type 0 where
  pub hash : ℕ
  pub prev_block : ℕ
  pub merkle_root : ℕ
  pub time : ℕ
  pub bits : ℕ
  pub size : ℕ

pub data BadBody : Type 0 where
  blk_length cb_missing cs_coinbasenotempty cs_missing txns_duplicate : BadBody
  txnmrklroot cb_multiple cs_multiple blk_sigops : BadBody
  bad_tx : Insanity → BadBody

pub data Body : Type 0 where
  good : Body
  bad : BadBody → Body

abbrev pub then_check : Body → Body → Body
then_check good b = b
then_check (bad r) b = bad r

unfoldable pub is_proof_of_stake : List Tx → Bool
is_proof_of_stake [] = false
is_proof_of_stake (cb ∷ []) = false
is_proof_of_stake (cb ∷ tx ∷ txs) = is_coinstake tx

unfoldable pub has_one_empty_output : List Output → Bool
has_one_empty_output [] = false
has_one_empty_output (o ∷ []) = is_empty o
has_one_empty_output (o ∷ p ∷ os) = false

-- The first transaction, and that of a proof-of-stake block. Its last test repeats what makes the
-- block one of proof of stake.
unfoldable pub check_first : List Tx → Body
unfolding is_proof_of_stake has_one_empty_output
check_first [] = bad cb_missing
check_first (cb ∷ txs) =
    if not (is_coinbase cb)
    then bad cb_missing
    else if is_proof_of_stake (cb ∷ txs) && not (has_one_empty_output cb.outputs)
    then bad cs_coinbasenotempty
    else good

-- `size_of` is `getBaseSize` of a transaction. `create_root` is `createRoot` of the merkle package,
-- where `none` says that the leaves are malleated.
module _ (size_of : Tx → ℕ) (create_root : List ℕ → Option ℕ) where
  unfoldable pub check_root : ℕ → List Tx → Body
  check_root root txs = elim (create_root (map (λ (tx : Tx). tx.hash) txs)) [
    | none ↦ bad txns_duplicate
    | some r ↦ if root == r then good else bad txnmrklroot
  ]

  -- The loop over the transactions, with the index and the sigops so far.
  unfoldable pub check_txs : ℕ → ℕ → List Tx → Body
  check_txs i sigops [] = good
  check_txs i sigops (tx ∷ txs) =
      let ops = sigops + get_legacy_sigops tx in
      let rest = check_txs (suc i) ops txs in
      if ltb 0 i && is_coinbase tx
      then bad cb_multiple
      else if ltb 1 i && is_coinstake tx
      then bad cs_multiple
      else elim (check_sanity (size_of tx) tx) [
        | insane r ↦ bad (bad_tx r)
        | sane ↦ if ltb max_block_sigops_cost ops then bad blk_sigops else rest
      ]

  unfoldable pub check_body : Header → Block → Body
  unfolding check_first check_root check_txs
  check_body h block =
      let n = length block.txs in
      let rest =
        then_check (check_first block.txs)
          (then_check (check_root h.merkle_root block.txs) (check_txs 0 0 block.txs)) in
      if n == 0 || ltb max_block_size n || ltb max_block_size h.size then bad blk_length else rest
