-- ===== src/Blockchain/Context/Sound.antt =====
-- What a block that `verifyContext` accepts satisfies.
use litedoge_js.Prelude.{
  ℕ, zero, suc, ◌+◌, ◌≤◌, ◌<◌, ◌≡◌, ◌↔◌, ◌⊎◌, subst, Bool, true, false, Option, none, some, List,
  [], ◌∷◌, map, arith, length, All, Option-cases, inl, inr, if◌then◌else◌,
}
use native.Mathlib.Decide.{dec_lt}
use litedoge_js.Prelude.Int.{pos}
use litedoge_js.Primitives.Tx.{Tx}
use litedoge_js.Coins.Entry.{to_raw}
use litedoge_js.Coins.View.{View}
use litedoge_js.Coins.Spend.{Db}
use litedoge_js.Coins.Overlay.{overlay}
use litedoge_js.Blockchain.Block.{Block}
use litedoge_js.Blockchain.Body.{Header, good, check_root, check_body}
use litedoge_js.Blockchain.Body.Sound.{good-HaveDistinctInputs}
use litedoge_js.Blockchain.Inputs.{update_inputs}
use litedoge_js.Blockchain.Verify.{Checks, Verified, accepted, refusal}
use litedoge_js.Blockchain.Verify.Sound.{verify_inputs-update_inputs}
use litedoge_js.Blockchain.Utxo.{apply_txs}
use litedoge_js.Blockchain.Utxo.Inverse.{AreNew}
use litedoge_js.Blockchain.Utxo.Refine.{ResultShows}
use litedoge_js.Blockchain.ChainDb.Save.{IsWellFormed}
use litedoge_js.Blockchain.ChainDb.Reorg.{update_inputs-refines, ResultShows-some}
use litedoge_js.Blockchain.Context.{
  Around, passed, all_final, has_coin_below, has_coins, verify_duplicates, verify_body, verify,
  inputs_of, of_verified, verify_context, max_block_weight,
}

-- The coins of a hash are outputs of the transaction with that hash.
abbrev pub HasOnlyOutputs : Db → List Tx → Type 0
HasOnlyOutputs coins txs =
    All (λ (tx : Tx). (i : ℕ) → length tx.outputs ≤ i → coins tx.hash i ≡ none) txs

no_coin_below :
    (coins : Db) (hash n i : ℕ) → has_coin_below coins hash n ≡ false → i < n → coins hash i ≡ none
no_coin_below coins hash zero i e h = absurd (omega (arith, h))
no_coin_below coins hash (suc n) i e h = elim (Option-cases (coins hash n)) [
  | inr (c, q) ↦ ground arith
  | inl q ↦ elim (dec_lt i n) [
    | yes p ↦ no_coin_below coins hash n i (ground arith) p
    | no p ↦ let same_index : n ≡ i = omega arith in subst (λ j. coins hash j ≡ none) same_index q
  ]
]

duplicates_step :
    (coins : Db) (hash : ℕ) (tx : Tx) (txs : List Tx)
    → verify_duplicates coins none hash (tx ∷ txs) ≡ true
    → (has_coin_below coins tx.hash (length tx.outputs) ≡ false)
      × (verify_duplicates coins none hash txs ≡ true)
unfolding verify_duplicates has_coins
duplicates_step coins hash tx txs e = (ground arith, ground arith)

-- Without an exception for the height, the hashes of the transactions are new.
verify_duplicates-AreNew :
    (coins : Db) (hash : ℕ) (txs : List Tx)
    → verify_duplicates coins none hash txs ≡ true
    → HasOnlyOutputs coins txs
    → AreNew coins txs
verify_duplicates-AreNew coins hash [] e k = tt
verify_duplicates-AreNew coins hash (tx ∷ txs) e (k, ks) =
    let (here, there) = duplicates_step coins hash tx txs e in
    (
      (λ i. elim (dec_lt i (length tx.outputs)) [
        | yes p ↦ no_coin_below coins tx.hash (length tx.outputs) i here p
        | no p ↦ k i (omega arith)
      ]),
      verify_duplicates-AreNew coins hash txs there ks,
    )

inputs_of-updated :
    (c : Checks) (coins : Db) (height : ℕ) (txs : List Tx) (v : View)
    → inputs_of c coins height txs ≡ passed v
    → update_inputs coins (pos height) txs ≡ some v
inputs_of-updated c coins height [] v e = absurd (cc e)
inputs_of-updated c coins height (cb ∷ txs) v e =
    verify_inputs-update_inputs c coins height cb txs v (of_verified-passed _ v e)
  where
    of_verified-passed : (r : Verified) (w : View) → of_verified r ≡ passed w → r ≡ accepted w
    of_verified-passed (accepted u) w q = cc q
    of_verified-passed (refusal x) w q = absurd (cc q)

-- The time that lock times are compared with.
abbrev pub lock_time : Around → Header → ℕ
lock_time a h = if a.has_mtp then a.mtp else h.time

module _ (size_of : Tx → ℕ) (create_root : List ℕ → Option ℕ) where
  -- The body of a block that is not historical, where bodies are checked.
  abbrev HasGoodBody : Bool → Around → Header → Block → Type 0
  HasGoodBody enabled a h block = verify_body size_of create_root enabled a h block ≡ good

  verify_parts :
      (enabled : Bool) (a : Around) (h : Header) (block : Block)
      → (verify size_of create_root enabled a h block ≡ passed tt) ↔ (
          (h.prev_block ≡ a.prev_hash)
          × (a.checkpoint_holds ≡ true)
          × HasGoodBody enabled a h block
          × (h.bits ≡ a.target)
          × (a.mtp < h.time)
          × (h.time ≤ a.now + 7200)
          × (all_final (a.prev_height + 1) (lock_time a h) block.txs ≡ true)
          × (h.size ≤ max_block_weight))
  unfolding verify
  verify_parts enabled a h block = (
    (λ e. (
      ground arith,
      ground arith,
      ground arith,
      ground arith,
      ground arith,
      ground arith,
      ground arith,
      ground arith,
    )),
    (λ p. ground arith),
  )

  body-checked :
      (a : Around) (h : Header) (block : Block)
      → HasGoodBody true a h block
      → a.historical ≡ false
      → check_body size_of create_root h block ≡ good
  unfolding verify_body
  body-checked a h block e n = ground arith

  -- The body is good as far as it is checked: not at all without `enabled`, the merkle root alone in
  -- a historical block, and everything elsewhere.
  abbrev pub IsGoodBody : Bool → Around → Header → Block → Type 0
  IsGoodBody enabled a h block =
      (enabled ≡ false)
      ⊎ ((enabled ≡ true)
          × (a.historical ≡ true)
          × (check_root size_of create_root h.merkle_root block.txs ≡ good))
      ⊎ ((enabled ≡ true)
          × (a.historical ≡ false)
          × (check_body size_of create_root h block ≡ good))

  context_parts :
      (c : Checks) (coins : Db) (exception : Option ℕ) (enabled : Bool) (a : Around) (h : Header)
      (block : Block) (v : View)
      → verify_context size_of create_root c coins exception enabled a h block ≡ passed v
      → a.historical ≡ false
      → (verify size_of create_root enabled a h block ≡ passed tt)
        × (verify_duplicates coins exception block.hash block.txs ≡ true)
        × (inputs_of c coins (a.prev_height + 1) block.txs ≡ passed v)
  unfolding verify_context
  context_parts c coins exception enabled a h block v e n =
      (ground arith, ground arith, ground arith)

  -- A block that `verifyContext` accepts, with its body checked and at a height that is neither
  -- historical nor excepted from BIP30, is applied as the coin specification says: spending and
  -- making coins in turn from the database's coins succeeds, and gives the coins and the undo coins
  -- that the view shows. The database is taken to hold coins of a transaction's hash at the indices
  -- of its outputs only.
  pub verify_context-apply_txs :
      (c : Checks) (coins : Db) (a : Around) (h : Header) (block : Block) (v : View)
      → verify_context size_of create_root c coins none true a h block ≡ passed v
      → a.historical ≡ false
      → HasOnlyOutputs coins block.txs
      → IsWellFormed v
        × (apply_txs true (pos (a.prev_height + 1)) block.txs (coins, [])
            ≡ some (overlay v coins, map to_raw v.undo))
  verify_context-apply_txs c coins a h block v e n k =
      let (checked, fresh, ran) = context_parts c coins none true a h block v e n in
      let parts = (verify_parts true a h block).0 checked in
      let body = body-checked a h block parts.2 n in
      let inputs = good-HaveDistinctInputs size_of create_root h block body in
      let fresh' = verify_duplicates-AreNew coins block.hash block.txs fresh k in
      let height = pos (a.prev_height + 1) in
      let shows = update_inputs-refines coins height block.txs inputs fresh' in
      let made = inputs_of-updated c coins (a.prev_height + 1) block.txs v ran in
      ResultShows-some coins v _
        (subst (λ o. ResultShows coins o (apply_txs true height block.txs (coins, []))) made shows)
