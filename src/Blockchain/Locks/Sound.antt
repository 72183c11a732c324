-- ===== src/Blockchain/Locks/Sound.antt =====
-- `verifyLocks` of lib/blockchain/chain.js, input by input.
use litedoge_js.Prelude.{
  ℕ, ◌+◌, ◌*◌, ◌≤◌, ◌<◌, ◌≡◌, ◌⊎◌, ◌↔◌, refl, sym, ap, subst, bit_and, Bool, true, false, not, ◌||◌,
  Option, none, some, List, [], ◌∷◌, All, ltb, ◌==◌, if◌then◌else◌, arith, Bool-cases, inl, inr,
}
use litedoge_js.Prelude.Int.{ℤ, pos, negsuc, ◌+ℤ◌, ◌≤ℤ◌, ltb_ℤ, +ℤ_parts}
use litedoge_js.Primitives.Tx.{Input, Tx, is_coinbase}
use litedoge_js.Coins.View.{View}
use litedoge_js.Blockchain.Block.{ChainEntry}
use litedoge_js.Blockchain.Index.{Loop, done, no_previous, running}
use litedoge_js.Blockchain.Store.{Store}
use litedoge_js.Blockchain.Store.Ancestors.{get_ancestor}
use litedoge_js.Blockchain.Locks.{
  Locks, median_time, coin_height, at_least_zero, add_lock, add_locks, no_locks, get_locks, holds,
  verify_locks, max_ℤ, add_time,
}

-- The lock that a sequence sets on its input.
pub data Lock : Type 0 where
  no_lock : Lock
  blocks : ℕ → Lock
  seconds : ℕ → Lock

unfoldable pub lock_of : ℕ → Lock
lock_of sequence =
    if not (bit_and sequence 0x8000_0000 == 0)
    then no_lock
    else if bit_and sequence 0x40_0000 == 0
    then blocks (bit_and sequence 0xffff)
    else seconds (bit_and sequence 0xffff * 512)

-- BIP68 does not bind it.
abbrev pub IsUnbound : Tx → Bool → Type 0
IsUnbound tx verify_sequence =
    (verify_sequence ≡ false) ⊎ ((is_coinbase tx ≡ true) ⊎ (tx.version < 2))

abbrev LessThan : ℤ → ℤ → Type 0
LessThan a b = ltb_ℤ a b ≡ true

max-LessThan : (a b c : ℤ) → LessThan (max_ℤ a b) c ↔ (LessThan a c × LessThan b c)
max-LessThan a b c = (λ h. ground arith, λ (h, k). ground arith)

-- The last block, or second, before the lock is over.
last-LessThan :
    (h : ℤ) (v n : ℕ) → LessThan (h +ℤ (pos v +ℤ negsuc 0)) (pos n) ↔ (h +ℤ pos v ≤ℤ pos n)
last-LessThan h v n = (
  λ k.
      ground
        (arith, +ℤ_parts h (pos v +ℤ negsuc 0), +ℤ_parts (pos v) (negsuc 0), +ℤ_parts h (pos v)),
  λ k.
      ground
        (arith, +ℤ_parts h (pos v +ℤ negsuc 0), +ℤ_parts (pos v) (negsuc 0), +ℤ_parts h (pos v)),
)

last_second : (m v n : ℕ) → LessThan (pos m +ℤ (pos v +ℤ negsuc 0)) (pos n) ↔ (m + v ≤ n)
last_second m v n =
    let (f, g) = last-LessThan (pos m) v n in
    (
      λ k. omega (arith, +ℤ_parts (pos m) (pos v), f k),
      λ k. g (omega (arith, +ℤ_parts (pos m) (pos v))),
    )

same_entry' : {a b : ChainEntry} → done (some a) ≡ done (some b) → a ≡ b
same_entry' {a} q = ap (of a) q
  where
    of : ChainEntry → Loop (Option ChainEntry) → ChainEntry
    of d (done (some e)) = e
    of d (done none) = d
    of d no_previous = d
    of d running = d

module _ (s : Store) (prev : ChainEntry) (next_height : ℕ) (view : View) where
  -- So many blocks are on the coin, or so many seconds of median time since the block before it.
  abbrev pub IsOver : ℤ → Lock → Type 0
  IsOver height no_lock = Unit
  IsOver height (blocks n) = height +ℤ pos n ≤ℤ pos (prev.height + 1)
  IsOver height (seconds n) =
      (e : ChainEntry) × (get_ancestor s prev (pos (at_least_zero (height +ℤ negsuc 0)))
        ≡ done (some e))
      × (median_time s.entries e + n ≤ median_time s.entries prev)

  abbrev pub IsUnlocked : Input → Type 0
  IsUnlocked i = IsOver (coin_height next_height view i) (lock_of i.sequence)

  abbrev Good : Locks → Type 0
  Good l =
      (ltb_ℤ l.min_height (pos (prev.height + 1)) ≡ true)
      × (ltb_ℤ l.min_time (pos (median_time s.entries prev)) ≡ true)

  abbrev GoodResult : Option Locks → Type 0
  GoodResult none = ⊥
  GoodResult (some l) = Good l

  add_time-Good :
      (v : ℕ) (l : Locks) (o : Loop (Option ChainEntry))
      → GoodResult (add_time s prev next_height view v l o) ↔ (
          Good l
          × ((e : ChainEntry) × (o ≡ done (some e))
              × (median_time s.entries e + v * 512 ≤ median_time s.entries prev)))
  add_time-Good v l running = (λ x. absurd x, λ (g, (e, q, h)). absurd (ground arith))
  add_time-Good v l no_previous = (λ x. absurd x, λ (g, (e, q, h)). absurd (ground arith))
  add_time-Good v l (done none) = (λ x. absurd x, λ (g, (e, q, h)). absurd (ground arith))
  add_time-Good v l (done (some e)) =
      let now = median_time s.entries prev in
      let (m, m') =
        max-LessThan l.min_time (pos (median_time s.entries e) +ℤ (pos (v * 512) +ℤ negsuc 0))
          (pos now) in
      let (k, k') = last_second (median_time s.entries e) (v * 512) now in
      (
        λ (g, t). let (x, y) = m t in ((g, x), (e, refl, k y)),
        λ ((g, t), (e', q, h)). (
          g,
          m' (t, k' (subst (λ z. median_time s.entries z + v * 512 ≤ now) (sym (same_entry' q)) h)),
        ),
      )

  add_height-Good :
      (v : ℕ) (h : ℤ) (l : Locks)
      → Good (record l { min_height = max_ℤ l.min_height (h +ℤ (pos v +ℤ negsuc 0)) })
        ↔ (Good l × (h +ℤ pos v ≤ℤ pos (prev.height + 1)))
  add_height-Good v h l =
      let (m, m') = max-LessThan l.min_height (h +ℤ (pos v +ℤ negsuc 0)) (pos (prev.height + 1)) in
      let (k, k') = last-LessThan h v (prev.height + 1) in
      (λ (g, t). let (x, y) = m g in ((x, t), k y), λ ((g, t), u). (m' (g, k' u), t))

  add_lock-Good :
      (i : Input) (l : Locks)
      → GoodResult (add_lock s prev next_height view i l) ↔ (Good l × IsUnlocked i)
  unfolding add_lock lock_of
  add_lock-Good i l = elim (Bool-cases (bit_and i.sequence 0x8000_0000 == 0)) [
    | inr f ↦ rw f (λ g. (g, tt), λ (g, u). g)
    | inl t ↦ elim (Bool-cases (bit_and i.sequence 0x40_0000 == 0)) [
      | inl u ↦
          rw (t, u) (add_height-Good (bit_and i.sequence 0xffff) (coin_height next_height view i) l)
      | inr f ↦
          rw (t, f)
            (add_time-Good (bit_and i.sequence 0xffff) l (
              get_ancestor s prev
                (pos (at_least_zero (coin_height next_height view i +ℤ negsuc 0)))))
    ]
  ]

  holds-Good : (l : Locks) → (holds s prev next_height view l ≡ true) ↔ Good l
  unfolding holds
  holds-Good l = elim (Bool-cases (holds s prev next_height view l)) [
    | inl t ↦ (λ h. ground arith, λ h. t)
    | inr f ↦ (λ h. ground arith, λ (h, k). ground arith)
  ]

  after_lock :
      (o : Option Locks) (f : Locks → Option Locks) (l : Locks) (P Q : Type 0)
      → GoodResult o ↔ (Good l × P)
      → ((l' : Locks) → GoodResult (f l') ↔ (Good l' × Q))
      → GoodResult (elim o [ none ↦ none | some l' ↦ f l' ]) ↔ (Good l × (P × Q))
  after_lock none f l P Q (a, b) h = (λ x. absurd x, λ (g, (p, q)). b (g, p))
  after_lock (some l') f l P Q (a, b) h = (
    λ x. let (g, q) = (h l').0 x in let (g', p) = a g in (g', (p, q)),
    λ (g, (p, q)). (h l').1 (b (g, p), q),
  )

  result_holds :
      (o : Option Locks)
      → ((elim o [ none ↦ none | some l ↦ some (holds s prev next_height view l) ]) ≡ some true)
        ↔ GoodResult o
  result_holds none = (λ h. ground arith, λ x. absurd x)
  result_holds (some l) = let (a, b) = holds-Good l in (λ h. a (ground arith), λ g. ap some (b g))

  no_locks-Good : Good (no_locks s prev next_height view)
  no_locks-Good = (ground arith, ground arith)

  add_locks-Good :
      (is : List Input) (l : Locks)
      → GoodResult (add_locks s prev next_height view is l) ↔ (Good l × All IsUnlocked is)
  unfolding add_locks
  add_locks-Good [] l = (λ g. (g, tt), λ (g, u). g)
  add_locks-Good (i ∷ is) l =
      after_lock (add_lock s prev next_height view i l) (add_locks s prev next_height view is) l
        (IsUnlocked i) (All IsUnlocked is) (add_lock-Good i l) (λ l'. add_locks-Good is l')

  -- `verifyLocks` passes exactly where the sequences do not bind the transaction, or each input has
  -- its lock over.
  pub verify_locks-IsUnlocked :
      (tx : Tx) (verify_sequence : Bool)
      → (verify_locks s prev next_height view tx verify_sequence ≡ some true)
        ↔ (IsUnbound tx verify_sequence ⊎ All IsUnlocked tx.inputs)
  unfolding verify_locks get_locks
  verify_locks-IsUnlocked tx false =
      let (a, b) = result_holds (some (no_locks s prev next_height view)) in
      (λ h. inl (inl refl), λ x. b no_locks-Good)
  verify_locks-IsUnlocked tx true = elim (Bool-cases (is_coinbase tx || ltb tx.version 2)) [
    | inl t ↦
        let (a, b) = result_holds (some (no_locks s prev next_height view)) in
        rw (verify_locks, get_locks, t) (λ h. inl (unbound tx t), λ x. b no_locks-Good)
    | inr f ↦
        let (a, b) =
          result_holds
            (add_locks s prev next_height view tx.inputs (no_locks s prev next_height view)) in
        let (c, d) = add_locks-Good tx.inputs (no_locks s prev next_height view) in
        rw (verify_locks, get_locks, f)
          (λ h. inr (c (a h)).1, λ x. b (d (no_locks-Good, bound tx f x)))
  ]
    where
      unbound : (tx : Tx) → (is_coinbase tx || ltb tx.version 2) ≡ true → IsUnbound tx true
      unbound tx t = elim (Bool-cases (is_coinbase tx)) [
        | inl c ↦ inr (inl c)
        | inr c ↦ inr (inr (ground arith))
      ]

      bound :
          (tx : Tx)
          → (is_coinbase tx || ltb tx.version 2) ≡ false
          → IsUnbound tx true ⊎ All IsUnlocked tx.inputs
          → All IsUnlocked tx.inputs
      bound tx f (inr x) = x
      bound tx f (inl (inl h)) = absurd (ground arith)
      bound tx f (inl (inr (inl h))) = absurd (ground arith)
      bound tx f (inl (inr (inr h))) = absurd (ground arith)
