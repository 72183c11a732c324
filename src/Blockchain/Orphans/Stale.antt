-- ===== src/Blockchain/Orphans/Stale.antt =====
-- The loop of `limitOrphans` in lib/blockchain/chain.js.
use litedoge_js.Prelude.{
  ℕ, ◌+◌, ◌*◌, ◌≤◌, ◌≡◌, refl, sym, subst, Option, none, some, List, [], ◌∷◌, ltb, length, arith,
  Bool-cases, inl, inr, ==_refl,
}
use litedoge_js.Prelude.Map.{Map, get, delete, IsFresh, HasUniqueKeys, get-delete, get-IsFresh}
use litedoge_js.Blockchain.Orphans.{Orphan, Orphans, older, drop_stale}
use litedoge_js.Blockchain.Orphans.Pairs.{
  IsPaired, removed, removed-IsPaired, remove_orphan-removed, length-delete, get-kept,
}

-- The orphans that are left after some are dropped: paired, and among those there were.
abbrev pub Leaves : Orphans → Orphans → Type 0
Leaves s t =
    IsPaired t
    × (length t.orphan_map ≤ length s.orphan_map)
    × ((h : ℕ) → get h s.orphan_map ≡ none → get h t.orphan_map ≡ none)
    × ((p : ℕ) → get p s.orphan_prev ≡ none → get p t.orphan_prev ≡ none)

pub removed-Leaves :
    (o : Orphan) (s : Orphans)
    → IsPaired s
    → get o.hash s.orphan_map ≡ some o
    → Leaves s (removed o s)
removed-Leaves o s p g = (
  removed-IsPaired o s p g,
  omega (arith, length-delete o.hash o s.orphan_map g),
  λ h n. ground (arith, get-delete o.hash h s.orphan_map p.map_keys),
  λ b n. ground (arith, get-delete o.prev_block b s.orphan_prev p.prev_keys),
)

-- The entries still to be looked at are in the map.
abbrev pub AreIn : Map Orphan → List (ℕ × Orphan) → Type 0
AreIn m [] = Unit
AreIn m ((k, o) ∷ os) = (get k m ≡ some o) × IsFresh k os × AreIn m os

-- The oldest is in the map; where there is none, the map holds the entries to come alone.
abbrev pub IsOldest : Option Orphan → List (ℕ × Orphan) → Orphans → Type 0
IsOldest none os s = length s.orphan_map ≡ length os
IsOldest (some o) os s = (get o.hash s.orphan_map ≡ some o) × IsFresh o.hash os

pub AreIn-all :
    (m os : Map Orphan)
    → HasUniqueKeys os
    → ((k : ℕ) (o : Orphan) → get k os ≡ some o → get k m ≡ some o)
    → AreIn m os
unfolding get
AreIn-all m [] u h = tt
AreIn-all m ((k, o) ∷ os) (f, u) h = (
  h k o (rw (==_refl k) refl),
  f,
  AreIn-all m os u λ j x r. h j x (ground (arith, get-IsFresh k os f)),
)

AreIn-delete :
    (k : ℕ) (m : Map Orphan) (os : List (ℕ × Orphan))
    → HasUniqueKeys m
    → IsFresh k os
    → AreIn m os
    → AreIn (delete k m) os
AreIn-delete k m [] u f a = tt
AreIn-delete k m ((j, o) ∷ os) u (e, f) (g, fr, a) =
    (get-kept k j m o u (λ q. ground arith) g, fr, AreIn-delete k m os u f a)

pub Leaves-trans : (s t r : Orphans) → Leaves s t → Leaves t r → Leaves s r
Leaves-trans s t r (p, l, h, b) (q, k, h', b') =
    (q, omega arith, λ x n. h' x (h x n), λ x n. b' x (b x n))

older-IsOldest :
    (k : ℕ) (o : Orphan) (os : List (ℕ × Orphan)) (oldest : Option Orphan) (s : Orphans)
    → get o.hash s.orphan_map ≡ some o
    → IsFresh o.hash os
    → IsOldest oldest ((k, o) ∷ os) s
    → IsOldest (older o oldest) os s
older-IsOldest k o os none s g f i = (g, f)
older-IsOldest k o os (some p) s g f (i, (e, j)) = elim (Bool-cases (ltb o.time p.time)) [
  | inl t ↦ rw t (g, f)
  | inr n ↦ rw n (i, j)
]

removed-IsOldest :
    (k : ℕ) (o : Orphan) (os : List (ℕ × Orphan)) (oldest : Option Orphan) (s : Orphans)
    → IsPaired s
    → get o.hash s.orphan_map ≡ some o
    → o.hash ≡ k
    → IsOldest oldest ((k, o) ∷ os) s
    → IsOldest oldest os (removed o s)
removed-IsOldest k o os none s p g q i = omega (arith, length-delete o.hash o s.orphan_map g)
removed-IsOldest k o os (some x) s p g q (i, (e, j)) =
    (get-kept o.hash x.hash s.orphan_map x p.map_keys (λ z. ground arith) i, j)

pub drop_stale-Leaves :
    (now : ℕ) (os : List (ℕ × Orphan)) (oldest : Option Orphan) (s : Orphans)
    → IsPaired s
    → AreIn s.orphan_map os
    → IsOldest oldest os s
    → (x : Option Orphan) × (t : Orphans) × (drop_stale now os oldest s ≡ some (x, t))
      × Leaves s t
      × IsOldest x [] t
unfolding drop_stale
drop_stale-Leaves now [] oldest s p a i =
    (oldest, s, refl, (p, omega arith, λ h n. n, λ b n. n), no_more oldest i)
  where
    no_more : (x : Option Orphan) → IsOldest x [] s → IsOldest x [] s
    no_more x j = j
drop_stale-Leaves now ((k, o) ∷ os) oldest s p (g, f, a) i =
    let e = (p.by_hash k o g).0 in
    let g' = subst (λ j. get j s.orphan_map ≡ some o) (sym e) g in
    let f' = subst (λ j. IsFresh j os) (sym e) f in
    elim (Bool-cases (ltb now (o.time + 60 * 60))) [
      | inl t ↦
          let (x, r, q, l, j) =
            drop_stale-Leaves now os (older o oldest) s p a
              (older-IsOldest k o os oldest s g' f' i) in
          (x, r, rw t q, l, j)
      | inr n ↦
          let (x, r, q, l, j) =
            drop_stale-Leaves now os oldest (removed o s) (removed-IsPaired o s p g')
              (AreIn-delete o.hash s.orphan_map os p.map_keys f' a)
              (removed-IsOldest k o os oldest s p g' e i) in
          (
            x,
            r,
            rw (n, remove_orphan-removed o s p g') q,
            Leaves-trans s (removed o s) r (removed-Leaves o s p g') l,
            j,
          )
    ]
