-- ===== src/Utils/Binary/Place.antt =====
-- Binary search finds the key or the place of the key.
use native.Mathlib.Decide.{dec_lt}
use litedoge_js.Prelude.{
  ℕ, zero, suc, ◌+◌, ◌-◌, ◌/◌, ◌≤◌, ◌<◌, ◌≡◌, ◌⊎◌, inl, inr, refl, List, sym, subst, true, false,
  arith, ltb, length,
}
use litedoge_js.Utils.Binary.{
  Sign, below, same, above, Position, found, absent, compare_at, search_loop, search, IsSortedFor,
  IsPosition,
}

module _ {ℓ} {A : Type ℓ} (compare : A → A → Sign) where
  Sign-cases : (s : Sign) → (s ≡ same) ⊎ ((s ≡ below) ⊎ (s ≡ above))
  Sign-cases same = inl refl
  Sign-cases below = inr (inl refl)
  Sign-cases above = inr (inr refl)

  middle : ℕ → ℕ → ℕ
  middle start stop = (start + stop - 1) / 2

  middle-bounds :
      (start stop : ℕ) → start < stop → (start ≤ middle start stop) × (middle start stop < stop)
  unfolding middle
  middle-bounds start stop h = (omega arith, omega arith)

  loop-done :
      (items : List A) (key : A) (fuel start stop : ℕ)
      → stop ≤ start
      → search_loop compare items key fuel start stop ≡ absent start
  unfolding search_loop
  loop-done items key zero start stop h = refl
  loop-done items key (suc fuel) start stop h =
      let test : ltb start stop ≡ false = ground arith in rw test

  abbrev choose : Sign → Position → Position → Position → Position
  choose s x right left = elim s [ same ↦ x | below ↦ right | above ↦ left ]

  below_middle :
      (items : List A) (key : A) (m : ℕ)
      → IsSortedFor compare items key
      → m < length items
      → compare_at compare items key m ≡ below
      → (j : ℕ) → j < m + 1
      → compare_at compare items key j ≡ below
  below_middle items key m (down, up) l e j h = elim (dec_lt j m) [
    | yes p ↦ down j m p l e
    | no p ↦
        let same_index : m ≡ j = omega arith in
        subst (λ i. compare_at compare items key i ≡ below) same_index e
  ]

  above_middle :
      (items : List A) (key : A) (m : ℕ)
      → IsSortedFor compare items key
      → compare_at compare items key m ≡ above
      → (j : ℕ) → m ≤ j
      → j < length items
      → compare_at compare items key j ≡ above
  above_middle items key m (down, up) e j h l = elim (dec_lt m j) [
    | yes p ↦ up m j p l e
    | no p ↦
        let same_index : m ≡ j = omega arith in
        subst (λ i. compare_at compare items key i ≡ above) same_index e
  ]

  -- One round of the loop.
  loop_step :
      (items : List A) (key : A) (fuel start stop : ℕ)
      → start < stop
      → search_loop compare items key (suc fuel) start stop
        ≡ choose
            (compare_at compare items key (middle start stop))
            (found (middle start stop))
            (search_loop compare items key fuel (middle start stop + 1) stop)
            (search_loop compare items key fuel start (middle start stop))
  unfolding search_loop middle
  loop_step items key fuel start stop h = let test : ltb start stop ≡ true = ground arith in rw test

  loop_at :
      (items : List A) (key : A) (fuel start stop : ℕ) (s : Sign)
      → start < stop
      → compare_at compare items key (middle start stop) ≡ s
      → search_loop compare items key (suc fuel) start stop
        ≡ choose s
            (found (middle start stop))
            (search_loop compare items key fuel (middle start stop + 1) stop)
            (search_loop compare items key fuel start (middle start stop))
  loop_at items key fuel start stop s h e =
      subst
        (λ t.
          search_loop compare items key (suc fuel) start stop
          ≡ choose t (found (middle start stop))
              (search_loop compare items key fuel (middle start stop + 1) stop)
              (search_loop compare items key fuel start (middle start stop)))
        e (loop_step items key fuel start stop h)

  search_loop-IsPosition :
      (items : List A) (key : A) (fuel start stop : ℕ)
      → IsSortedFor compare items key
      → stop ≤ start + fuel
      → start ≤ stop
      → stop ≤ length items
      → ((j : ℕ) → j < start → compare_at compare items key j ≡ below)
      → ((j : ℕ) → stop ≤ j → j < length items → compare_at compare items key j ≡ above)
      → IsPosition compare items key (search_loop compare items key fuel start stop)
  search_loop-IsPosition items key zero start stop ordered f o l lo hi =
      subst (λ r. IsPosition compare items key r)
        (sym (loop-done items key zero start stop (omega arith)))
        (omega arith, lo, (λ j a b. hi j (omega arith) b))
  search_loop-IsPosition items key (suc fuel) start stop ordered f o l lo hi =
      let m = middle start stop in
      elim (dec_lt start stop) [
        | no p ↦
            subst (λ r. IsPosition compare items key r)
              (sym (loop-done items key (suc fuel) start stop (omega arith)))
              (omega arith, lo, (λ j a b. hi j (omega arith) b))
        | yes p ↦
            let (left, right) = middle-bounds start stop p in
            elim (Sign-cases (compare_at compare items key m)) [
              | inl e ↦
                  subst (λ r. IsPosition compare items key r)
                    (sym (loop_at items key fuel start stop same p e)) (omega arith, e)
              | inr (inl e) ↦
                  subst (λ r. IsPosition compare items key r)
                    (sym (loop_at items key fuel start stop below p e))
                    (search_loop-IsPosition items key fuel (m + 1) stop ordered (omega arith)
                      (omega arith) l (below_middle items key m ordered (omega arith) e) hi)
              | inr (inr e) ↦
                  subst (λ r. IsPosition compare items key r)
                    (sym (loop_at items key fuel start stop above p e))
                    (search_loop-IsPosition items key fuel start m ordered (omega arith) left
                      (omega arith) lo (above_middle items key m ordered e))
            ]
      ]

  -- On items that are in order as far as the key can tell, the search ends with an index of the key
  -- or with the index where it belongs: everything before that is below it and everything from
  -- there on is above it.
  pub search-IsPosition :
      (items : List A) (key : A)
      → IsSortedFor compare items key
      → IsPosition compare items key (search compare items key)
  unfolding search
  search-IsPosition items key ordered =
      search_loop-IsPosition items key (length items) 0 (length items) ordered (omega arith)
        (omega arith) (omega arith) (λ j h. absurd (omega (arith, h)))
        (λ j a b. absurd (omega (arith, a, b)))
