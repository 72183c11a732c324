-- ===== src/Blockchain/Context.antt =====
-- lib/blockchain/chain.js: `verify`, `verifyDuplicates` and `verifyContext`, without SPV.
pub mod Sound
use litedoge_js.Prelude.{
  ℕ, zero, suc, ◌+◌, ◌*◌, Bool, true, false, not, ◌&&◌, ◌||◌, Option, none, some, List, [], ◌∷◌,
  map, ltb, leb, ◌==◌, length, if◌then◌else◌,
}
use litedoge_js.Prelude.Int.{pos}
use litedoge_js.Primitives.Tx.{Tx}
use litedoge_js.Coins.View.{View}
use litedoge_js.Coins.Spend.{Db}
use litedoge_js.Blockchain.Block.{Block}
use litedoge_js.Blockchain.Sanity.{is_final}
use litedoge_js.Blockchain.Body.{
  Header, Body, BadBody, good, bad, cb_missing, check_root, check_body,
}
use litedoge_js.Blockchain.Inputs.{update_inputs}
use litedoge_js.Blockchain.Verify.{
  Checks, Refusal, Verified, accepted, refusal, no_coinbase, verify_inputs,
}

abbrev pub max_block_weight : ℕ
max_block_weight = 4_000_000

-- What `verify` reads beside the block: the previous entry, the answers of `verifyCheckpoint`,
-- `isHistorical`, `getTarget` and `getMedianTime`, the clock, and `hasMTP` of the deployments.
pub record Around : Type 0 where
  pub prev_hash : ℕ
  pub prev_height : ℕ
  pub checkpoint_holds : Bool
  pub historical : Bool
  pub target : ℕ
  pub mtp : ℕ
  pub now : ℕ
  pub has_mtp : Bool

-- What ends the verification: a VerifyError of the code, or one of its assertions, which are
-- `missing_historical` ('BUG: Spent inputs') and the refusal `no_coinbase`.
pub data VerifyError : Type 0 where
  prevblk checkpoint_mismatch diffbits time_too_old time_too_new : VerifyError
  txns_nonfinal blk_weight bip30 missing_historical : VerifyError
  body_error : BadBody → VerifyError
  input_error : Refusal → VerifyError

pub data Outcome {ℓ} (A : Type ℓ) : Type ℓ where
  passed : A → Outcome A
  thrown : VerifyError → Outcome A

unfoldable pub all_final : ℕ → ℕ → List Tx → Bool
all_final height time [] = true
all_final height time (tx ∷ txs) = is_final tx height time && all_final height time txs

abbrev pub has_coin_below : Db → ℕ → ℕ → Bool
has_coin_below coins hash zero = false
has_coin_below coins hash (suc n) = elim (coins hash n) [
  | some c ↦ true
  | none ↦ has_coin_below coins hash n
]

-- `hasCoins`: a coin of one of the transaction's outputs is in the database. The code looks from the
-- first output up, which makes no difference to the answer.
unfoldable pub has_coins : Db → Tx → Bool
has_coins coins tx = has_coin_below coins tx.hash (length tx.outputs)

-- `exception` is the block that the network lists for this height in `bip30`.
unfoldable pub verify_duplicates : Db → Option ℕ → ℕ → List Tx → Bool
unfolding has_coins
verify_duplicates coins exception hash [] = true
verify_duplicates coins exception hash (tx ∷ txs) =
    let rest = verify_duplicates coins exception hash txs in
    if not (has_coins coins tx)
    then rest
    else elim exception [ none ↦ false | some h ↦ if hash == h then rest else false ]

abbrev pub of_verified : Verified → Outcome View
of_verified (accepted v) = passed v
of_verified (refusal r) = thrown (input_error r)

abbrev pub of_updated : Option View → Outcome View
of_updated none = thrown missing_historical
of_updated (some v) = passed v

-- `verify_inputs` takes the first transaction apart from the others; a block that has none fails the
-- assertion of `getClaimed`.
abbrev pub inputs_of : Checks → Db → ℕ → List Tx → Outcome View
inputs_of c coins height [] = thrown (input_error no_coinbase)
inputs_of c coins height (cb ∷ txs) = of_verified (verify_inputs c coins height cb txs)

module _ (size_of : Tx → ℕ) (create_root : List ℕ → Option ℕ) where
  -- The checks of the body. A historical block has its merkle root checked alone.
  unfoldable pub verify_body : Bool → Around → Header → Block → Body
  verify_body enabled a h block =
      if not enabled
      then good
      else if a.historical
      then check_root size_of create_root h.merkle_root block.txs
      else check_body size_of create_root h block

  unfoldable pub verify : Bool → Around → Header → Block → Outcome (Unit {0})
  unfolding verify_body all_final
  verify enabled a h block =
      let time = if a.has_mtp then a.mtp else h.time in
      let later =
        if not (h.bits == a.target)
        then thrown diffbits
        else if leb h.time a.mtp
        then thrown time_too_old
        else if ltb (a.now + 2 * 60 * 60) h.time
        then thrown time_too_new
        else if not (all_final (a.prev_height + 1) time block.txs)
        then thrown txns_nonfinal
        else if ltb max_block_weight h.size
        then thrown blk_weight
        else passed tt in
      if not (h.prev_block == a.prev_hash)
      then thrown prevblk
      else if not a.checkpoint_holds
      then thrown checkpoint_mismatch
      else elim (verify_body enabled a h block) [ bad r ↦ thrown (body_error r) | good ↦ later ]

  unfoldable pub verify_context :
      Checks → Db → Option ℕ → Bool → Around → Header → Block → Outcome View
  unfolding verify
  verify_context c coins exception enabled a h block =
      let height = a.prev_height + 1 in
      elim (verify enabled a h block) [
        | thrown r ↦ thrown r
        | passed t ↦
            if a.historical
            then of_updated (update_inputs coins (pos height) block.txs)
            else if not (verify_duplicates coins exception block.hash block.txs)
            then thrown bip30
            else inputs_of c coins height block.txs
      ]
