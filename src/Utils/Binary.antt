-- ===== src/Utils/Binary.antt =====
-- lib/utils/binary.js: binary search. `stop` is the code's `end` plus one.
pub mod Place
use litedoge_js.Prelude.{
  ℕ, zero, suc, ◌+◌, ◌-◌, ◌*◌, ◌/◌, ◌≤◌, ◌<◌, ◌≡◌, ◌⊎◌, inl, inr, refl, Option, none, some, List,
  [], ◌∷◌, sym, subst, Bool, true, false, arith, ltb, length, get_elem?, if◌then◌else◌,
}

-- The sign of what `compare` answers.
pub data Sign : Type 0 where
  below same above : Sign

pub data Position : Type 0 where
  found : ℕ → Position
  absent : ℕ → Position

module _ {ℓ} {A : Type ℓ} (compare : A → A → Sign) where
  -- `compare(items[i], key)`, for an index inside the items.
  abbrev pub compare_at : List A → A → ℕ → Sign
  compare_at items key i = elim (get_elem? items i) [ none ↦ above | some x ↦ compare x key ]

  unfoldable pub search_loop : List A → A → ℕ → ℕ → ℕ → Position
  search_loop items key zero start stop = absent start
  search_loop items key (suc fuel) start stop =
      let pos = (start + stop - 1) / 2 in
      let right = search_loop items key fuel (pos + 1) stop in
      let left = search_loop items key fuel start pos in
      if ltb start stop
      then elim (compare_at items key pos) [ same ↦ found pos | below ↦ right | above ↦ left ]
      else absent start

  -- `search` with `insert`: the index of the key, or that where it belongs. Without `insert` the
  -- code answers -1 for `absent`.
  unfoldable pub search : List A → A → Position
  unfolding search_loop
  search items key = search_loop items key (length items) 0 (length items)

  -- The items are in order, as far as the key can tell.
  abbrev pub IsSortedFor : List A → A → Type 0
  IsSortedFor items key =
      ((i j : ℕ)
        → i < j
        → j < length items
        → compare_at items key j ≡ below
        → compare_at items key i ≡ below)
      × ((i j : ℕ)
          → i < j
          → j < length items
          → compare_at items key i ≡ above
          → compare_at items key j ≡ above)

  abbrev pub IsPosition : List A → A → Position → Type 0
  IsPosition items key (found i) = (i < length items) × (compare_at items key i ≡ same)
  IsPosition items key (absent i) =
      (i ≤ length items)
      × ((j : ℕ) → j < i → compare_at items key j ≡ below)
      × ((j : ℕ) → i ≤ j → j < length items → compare_at items key j ≡ above)
