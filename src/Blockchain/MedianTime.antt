-- ===== src/Blockchain/MedianTime.antt =====
-- lib/blockchain/chain.js: `getMedianTime`. The library's `sort` of an array of numbers is an
-- insertion sort.
pub mod Middle
use litedoge_js.Prelude.{
  ℕ, zero, suc, ◌/◌, Bool, Option, none, some, List, [], ◌∷◌, leb, length, get_elem?, if◌then◌else◌,
}
use litedoge_js.Blockchain.Block.{ChainEntry}
use litedoge_js.Blockchain.Index.{Index, get_previous}

abbrev pub median_timespan : ℕ
median_timespan = 11

-- The times of an entry and of those before it.
unfoldable pub past_times : ℕ → Index → ChainEntry → List ℕ
unfolding get_previous
past_times zero index e = []
past_times (suc n) index e =
    e.time ∷ (elim (get_previous index e) [ none ↦ [] | some p ↦ past_times n index p ])

unfoldable pub insert_sorted : ℕ → List ℕ → List ℕ
insert_sorted x [] = x ∷ []
insert_sorted x (y ∷ ys) = if leb x y then x ∷ y ∷ ys else y ∷ insert_sorted x ys

unfoldable pub sort : List ℕ → List ℕ
unfolding insert_sorted
sort [] = []
sort (x ∷ xs) = insert_sorted x (sort xs)

-- `undefined`, the median of no time, is `none`.
unfoldable pub median : List ℕ → Option ℕ
unfolding sort
median times = get_elem? (sort times) (length times / 2)

-- With the time of a block that is to be counted first.
unfoldable pub get_median_time : Index → ChainEntry → Option ℕ → Option ℕ
unfolding median past_times
get_median_time index prev none = median (past_times median_timespan index prev)
get_median_time index prev (some time) = median (time ∷ past_times 10 index prev)
