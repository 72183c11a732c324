-- ===== src/Blockchain/Locks.antt =====
-- lib/blockchain/chain.js: `verifyFinal`, `getLocks` and `verifyLocks` (BIP113 and BIP68).
pub mod Sound
use litedoge_js.Prelude.{
  ℕ, zero, suc, ◌+◌, ◌-◌, ◌*◌, ◌^◌, bit_and, Bool, true, false, not, ◌&&◌, ◌||◌, Option, none, some,
  List, [], ◌∷◌, ltb, leb, ◌==◌, if◌then◌else◌,
}
use litedoge_js.Prelude.Int.{ℤ, pos, negsuc, ◌+ℤ◌, ltb_ℤ}
use litedoge_js.Primitives.Tx.{Input, Tx, is_coinbase}
use litedoge_js.Coins.View.{View, get_height}
use litedoge_js.Blockchain.Block.{ChainEntry}
use litedoge_js.Blockchain.Sanity.{is_final}
use litedoge_js.Blockchain.Index.{Index, Loop, done, no_previous, running}
use litedoge_js.Blockchain.Store.{Store}
use litedoge_js.Blockchain.Store.Ancestors.{get_ancestor}
use litedoge_js.Blockchain.MedianTime.{get_median_time}

abbrev pub locktime_threshold : ℕ
locktime_threshold = 500_000_000

-- There always is a median time.
unfoldable pub median_time : Index → ChainEntry → ℕ
unfolding get_median_time
median_time index e = elim (get_median_time index e none) [ none ↦ 0 | some m ↦ m ]

-- The time -1 that the code passes for a height is not looked at.
unfoldable pub verify_final : Store → ChainEntry → Tx → Bool → ℕ → Bool
unfolding median_time
verify_final s prev tx by_median now =
    let height = prev.height + 1 in
    if ltb tx.locktime locktime_threshold
    then is_final tx height 0
    else if by_median
    then is_final tx height (median_time s.entries prev)
    else is_final tx height now

pub record Locks : Type 0 where
  pub min_height : ℤ
  pub min_time : ℤ

abbrev pub max_ℤ : ℤ → ℤ → ℤ
max_ℤ a b = if ltb_ℤ a b then b else a

-- `next_height` is the chain's height and one.
unfoldable pub coin_height : ℕ → View → Input → ℤ
coin_height next_height view i = elim (get_height i.prevout view) [
  | pos h ↦ pos h
  | negsuc zero ↦ pos next_height
  | negsuc (suc n) ↦ negsuc (suc n)
]

abbrev pub at_least_zero : ℤ → ℕ
at_least_zero (pos n) = n
at_least_zero (negsuc n) = 0

module _ (s : Store) (prev : ChainEntry) (next_height : ℕ) (view : View) where
  abbrev pub add_time : ℕ → Locks → Loop (Option ChainEntry) → Option Locks
  add_time value l running = none
  add_time value l no_previous = none
  add_time value l (done none) = none
  add_time value l (done (some e)) = some (record l {
    min_time =
        max_ℤ l.min_time (pos (median_time s.entries e) +ℤ (pos (value * 2 ^ 9) +ℤ negsuc 0));
  })

  -- One round of the loop. A missing entry fails an assertion.
  unfoldable pub add_lock : Input → Locks → Option Locks
  add_lock i l =
      let height = coin_height next_height view i in
      let value = bit_and i.sequence 0xffff in
      if not (bit_and i.sequence 0x8000_0000 == 0)
      then some l
      else if bit_and i.sequence 0x40_0000 == 0
      then some (record l { min_height = max_ℤ l.min_height (height +ℤ (pos value +ℤ negsuc 0)) })
      else add_time value l (get_ancestor s prev (pos (at_least_zero (height +ℤ negsuc 0))))

  unfoldable pub add_locks : List Input → Locks → Option Locks
  unfolding add_lock
  add_locks [] l = some l
  add_locks (i ∷ is) l = elim (add_lock i l) [ none ↦ none | some l' ↦ add_locks is l' ]

  abbrev pub no_locks : Locks
  no_locks = record { min_height = negsuc 0; min_time = negsuc 0 }

  unfoldable pub get_locks : Tx → Bool → Option Locks
  unfolding add_locks
  get_locks tx verify_sequence =
      if not verify_sequence
      then some no_locks
      else if is_coinbase tx || ltb tx.version 2
      then some no_locks
      else add_locks tx.inputs no_locks

  abbrev pub is_minus_one : ℤ → Bool
  is_minus_one (pos n) = false
  is_minus_one (negsuc n) = n == 0

  -- `height !== -1` and `height >= prev.height + 1`, and the same of the times.
  unfoldable pub holds : Locks → Bool
  holds l =
      if not (is_minus_one l.min_height) && not (ltb_ℤ l.min_height (pos (prev.height + 1)))
      then false
      else if not (is_minus_one l.min_time)
          && not (ltb_ℤ l.min_time (pos (median_time s.entries prev)))
      then false
      else true

  unfoldable pub verify_locks : Tx → Bool → Option Bool
  unfolding get_locks holds
  verify_locks tx verify_sequence = elim (get_locks tx verify_sequence) [
    | none ↦ none
    | some l ↦ some (holds l)
  ]
