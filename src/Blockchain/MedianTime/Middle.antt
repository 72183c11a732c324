-- ===== src/Blockchain/MedianTime/Middle.antt =====
-- `getMedianTime` of lib/blockchain/chain.js, and what a median is.
use litedoge_js.Prelude.{
  ℕ, zero, suc, ◌+◌, ◌/◌, ◌≤◌, ◌<◌, ◌≡◌, refl, ap, ◌∙◌, subst, Bool-cases, Option, none, some, List,
  [], ◌∷◌, leb, length, get_elem?, if◌then◌else◌, arith, All, inl, inr,
}
use litedoge_js.Blockchain.Block.{ChainEntry}
use litedoge_js.Blockchain.Index.{Index, get_previous}
use litedoge_js.Blockchain.Store.MainChain.{unwrap_some}
use litedoge_js.Blockchain.MedianTime.{past_times, insert_sorted, sort, median, get_median_time}

-- How many of the times are at most, and at least, a given one.
abbrev pub at_most : ℕ → List ℕ → ℕ
at_most m [] = 0
at_most m (x ∷ xs) = if leb x m then suc (at_most m xs) else at_most m xs

abbrev pub at_least : ℕ → List ℕ → ℕ
at_least m [] = 0
at_least m (x ∷ xs) = if leb m x then suc (at_least m xs) else at_least m xs

abbrev IsSorted : List ℕ → Type 0
IsSorted [] = Unit
IsSorted (x ∷ xs) = All (λ y. x ≤ y) xs × IsSorted xs

at_most-insert_sorted :
    (m x : ℕ) (xs : List ℕ) → at_most m (insert_sorted x xs) ≡ at_most m (x ∷ xs)
unfolding insert_sorted
at_most-insert_sorted m x [] = refl
at_most-insert_sorted m x (y ∷ ys) = ground (arith, at_most-insert_sorted m x ys)

at_least-insert_sorted :
    (m x : ℕ) (xs : List ℕ) → at_least m (insert_sorted x xs) ≡ at_least m (x ∷ xs)
unfolding insert_sorted
at_least-insert_sorted m x [] = refl
at_least-insert_sorted m x (y ∷ ys) = ground (arith, at_least-insert_sorted m x ys)

at_most-sort : (m : ℕ) (xs : List ℕ) → at_most m (sort xs) ≡ at_most m xs
unfolding sort
at_most-sort m [] = refl
at_most-sort m (x ∷ xs) = ground (arith, at_most-insert_sorted m x (sort xs), at_most-sort m xs)

at_least-sort : (m : ℕ) (xs : List ℕ) → at_least m (sort xs) ≡ at_least m xs
unfolding sort
at_least-sort m [] = refl
at_least-sort m (x ∷ xs) = ground (arith, at_least-insert_sorted m x (sort xs), at_least-sort m xs)

length-insert_sorted : (x : ℕ) (xs : List ℕ) → length (insert_sorted x xs) ≡ suc (length xs)
unfolding insert_sorted
length-insert_sorted x [] = refl
length-insert_sorted x (y ∷ ys) = ground (arith, length-insert_sorted x ys)

length-sort : (xs : List ℕ) → length (sort xs) ≡ length xs
unfolding sort
length-sort [] = refl
length-sort (x ∷ xs) = length-insert_sorted x (sort xs) ∙ ap suc (length-sort xs)

All-insert_sorted :
    (z x : ℕ) (xs : List ℕ) → z ≤ x → All (λ y. z ≤ y) xs → All (λ y. z ≤ y) (insert_sorted x xs)
unfolding insert_sorted
All-insert_sorted z x [] h a = (h, tt)
All-insert_sorted z x (y ∷ ys) h (b, a) = elim (Bool-cases (leb x y)) [
  | inl t ↦ rw t (h, (b, a))
  | inr f ↦ rw f (b, All-insert_sorted z x ys h a)
]

All-le : (x y : ℕ) (ys : List ℕ) → x ≤ y → All (λ z. y ≤ z) ys → All (λ z. x ≤ z) ys
All-le x y [] h a = tt
All-le x y (z ∷ zs) h (b, a) = (omega arith, All-le x y zs h a)

insert_sorted-IsSorted : (x : ℕ) (xs : List ℕ) → IsSorted xs → IsSorted (insert_sorted x xs)
unfolding insert_sorted
insert_sorted-IsSorted x [] s = (tt, tt)
insert_sorted-IsSorted x (y ∷ ys) (a, s) = elim (Bool-cases (leb x y)) [
  | inl t ↦ rw t ((ground arith, All-le x y ys (ground arith) a), (a, s))
  | inr f ↦ rw f (All-insert_sorted y x ys (ground arith) a, insert_sorted-IsSorted x ys s)
]

sort-IsSorted : (xs : List ℕ) → IsSorted (sort xs)
unfolding sort
sort-IsSorted [] = tt
sort-IsSorted (x ∷ xs) = insert_sorted-IsSorted x (sort xs) (sort-IsSorted xs)

at_least-All : (m : ℕ) (xs : List ℕ) → All (λ y. m ≤ y) xs → at_least m xs ≡ length xs
at_least-All m [] a = refl
at_least-All m (x ∷ xs) (h, a) = ground (arith, at_least-All m xs a)

All-get_elem : (x m i : ℕ) (xs : List ℕ) → All (λ y. x ≤ y) xs → get_elem? xs i ≡ some m → x ≤ m
All-get_elem x m i [] a h = absurd (ground arith)
All-get_elem x m zero (y ∷ ys) (b, a) h = ground arith
All-get_elem x m (suc i) (y ∷ ys) (b, a) h = All-get_elem x m i ys a h

-- In a sorted list the elements before a place are at most, those from it on at least, the one there.
sorted_at :
    (m i : ℕ) (xs : List ℕ)
    → IsSorted xs
    → get_elem? xs i ≡ some m
    → (suc i ≤ at_most m xs) × (length xs ≤ i + at_least m xs)
sorted_at m i [] s h = absurd (ground arith)
sorted_at m zero (x ∷ xs) (a, s) h =
    let e = unwrap_some h in
    let all = at_least-All x xs a in
    (ground arith, subst (λ z. suc (length xs) ≤ 0 + at_least z (x ∷ xs)) e (ground arith))
sorted_at m (suc i) (x ∷ xs) (a, s) h =
    let le = All-get_elem x m i xs a h in
    let (p, q) = sorted_at m i xs s h in (ground arith, ground arith)

get_elem-in : (i : ℕ) (xs : List ℕ) → i < length xs → (m : ℕ) × (get_elem? xs i ≡ some m)
get_elem-in i [] h = absurd (omega arith)
get_elem-in zero (x ∷ xs) h = (x, refl)
get_elem-in (suc i) (x ∷ xs) h = get_elem-in i xs (omega arith)

-- More than half of the times are at most `m`, and at least half, rounded up, at least `m`.
abbrev pub IsMedian : List ℕ → ℕ → Type 0
IsMedian times m =
    (length times / 2 < at_most m times) × (length times ≤ length times / 2 + at_least m times)

median-IsMedian : (x : ℕ) (xs : List ℕ) → (m : ℕ) × (median (x ∷ xs) ≡ some m) × IsMedian (x ∷ xs) m
unfolding median
median-IsMedian x xs =
    let times = x ∷ xs in
    let (m, e) = get_elem-in (length times / 2) (sort times) (omega (arith, length-sort times)) in
    let (p, q) = sorted_at m (length times / 2) (sort times) (sort-IsSorted times) e in
    (
      m,
      e,
      (
        omega (arith, at_most-sort m times),
        omega (arith, at_least-sort m times, length-sort times),
      ),
    )

abbrev pub counted : Index → ChainEntry → Option ℕ → List ℕ
counted index prev none = past_times 11 index prev
counted index prev (some time) = time ∷ past_times 10 index prev

-- There is a median time, and it is a median of the times counted: those of up to eleven blocks, or a
-- given one and those of up to ten.
pub get_median_time-IsMedian :
    (index : Index) (prev : ChainEntry) (time : Option ℕ)
    → (m : ℕ) × (get_median_time index prev time ≡ some m) × IsMedian (counted index prev time) m
unfolding get_median_time past_times
get_median_time-IsMedian index prev none =
    median-IsMedian prev.time
      (elim (get_previous index prev) [ none ↦ [] | some p ↦ past_times 10 index p ])
get_median_time-IsMedian index prev (some time) = median-IsMedian time (past_times 10 index prev)
