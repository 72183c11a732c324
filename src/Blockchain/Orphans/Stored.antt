-- ===== src/Blockchain/Orphans/Stored.antt =====
-- `limitOrphans`, `storeOrphan` and `resolveOrphan` of lib/blockchain/chain.js.
use litedoge_js.Prelude.{
  ℕ, ◌≤◌, ◌<◌, ◌≡◌, refl, sym, ap, ◌∙◌, subst, true, false, Option, none, some, [], ltb, length,
  ◌==◌, arith, Bool-cases, Option-cases, inl, inr, ==→eq,
}
use litedoge_js.Prelude.Map.{get, get-delete}
use litedoge_js.Blockchain.Orphans.{
  Orphan, Orphans, drop_stale, drop_oldest, limit_orphans, drop_forked, store_orphan, remove_orphan,
  resolve_orphan,
}
use litedoge_js.Blockchain.Orphans.Pairs.{
  IsPaired, removed, removed-IsPaired, added, added-IsPaired, remove_orphan-removed,
  add_orphan-added, length-delete, length-set, get-same,
}
use litedoge_js.Blockchain.Orphans.Stale.{
  Leaves, IsOldest, removed-Leaves, AreIn-all, Leaves-trans, drop_stale-Leaves,
}

drop_oldest-Leaves :
    (n : ℕ) (x : Option Orphan) (s : Orphans)
    → IsPaired s
    → IsOldest x [] s
    → 0 < n
    → length s.orphan_map ≤ n
    → (t : Orphans) × (drop_oldest n (x, s) ≡ some t) × Leaves s t × (length t.orphan_map < n)
drop_oldest-Leaves n x s p i z l = elim (Bool-cases (ltb (length s.orphan_map) n)) [
  | inl t ↦ (s, rw t refl, (p, omega arith, λ h k. k, λ b k. k), ground arith)
  | inr f ↦ full x i f
]
  where
    full :
        (x : Option Orphan)
        → IsOldest x [] s
        → ltb (length s.orphan_map) n ≡ false
        → (t : Orphans) × (drop_oldest n (x, s) ≡ some t) × Leaves s t × (length t.orphan_map < n)
    full none i f = absurd (ground arith)
    full (some o) (g, u) f = (
      removed o s,
      rw f (remove_orphan-removed o s p g),
      removed-Leaves o s p g,
      omega (arith, length-delete o.hash o s.orphan_map g),
    )

limit_after :
    (now n : ℕ) (s r t : Orphans) (x : Option Orphan)
    → drop_stale now s.orphan_map none s ≡ some (x, r)
    → drop_oldest n (x, r) ≡ some t
    → limit_orphans now n s ≡ some t
unfolding limit_orphans
limit_after now n s r t x q h = rw (limit_orphans, q) h

-- `limitOrphans` makes room for one more.
limit_orphans-Leaves :
    (now n : ℕ) (s : Orphans)
    → IsPaired s
    → 0 < n
    → length s.orphan_map ≤ n
    → (t : Orphans) × (limit_orphans now n s ≡ some t) × Leaves s t × (length t.orphan_map < n)
unfolding limit_orphans
limit_orphans-Leaves now n s p z l =
    let (x, r, q, k, i) =
      drop_stale-Leaves now s.orphan_map none s p
        (AreIn-all s.orphan_map s.orphan_map p.map_keys (λ h o g. g)) refl in
    let (t, q', k', l') = drop_oldest-Leaves n x r k.0 i z (omega (arith, k.1)) in
    (t, limit_after now n s r t x q q', Leaves-trans s r t k k', l')

-- No orphan is left that waits for the same block.
drop_forked-Leaves :
    (o : Orphan) (s : Orphans)
    → IsPaired s
    → get o.hash s.orphan_map ≡ none
    → (t : Orphans) × (drop_forked o s ≡ some t)
      × Leaves s t
      × (get o.prev_block t.orphan_prev ≡ none)
unfolding drop_forked
drop_forked-Leaves o s p g = elim (Option-cases (get o.prev_block s.orphan_prev)) [
  | inl n ↦ (s, rw (drop_forked, n) refl, (p, omega arith, λ h k. k, λ b k. k), n)
  | inr (x, k) ↦
      let (e, j) = p.by_prev o.prev_block x k in
      (
        removed x s,
        rw (drop_forked, k, other x j, same x e) (remove_orphan-removed x s p j),
        removed-Leaves x s p j,
        ground (arith, get-delete x.prev_block o.prev_block s.orphan_prev p.prev_keys),
      )
]
  where
    other : (x : Orphan) → get x.hash s.orphan_map ≡ some x → (x.hash == o.hash) ≡ false
    other x j = elim (Bool-cases (x.hash == o.hash)) [
      | inr f ↦ f
      | inl t ↦
          absurd
            (ground (arith, subst (λ h. get h s.orphan_map ≡ some x) (==→eq x.hash o.hash t) j))
    ]

    same : (x : Orphan) → x.prev_block ≡ o.prev_block → (x.prev_block == o.prev_block) ≡ true
    same x e = ground arith

-- A new orphan is stored without a failed assertion: the maps stay paired, hold no more orphans than
-- allowed, and have the new one.
pub store_orphan-IsPaired :
    (now n : ℕ) (o : Orphan) (s : Orphans)
    → IsPaired s
    → get o.hash s.orphan_map ≡ none
    → 0 < n
    → length s.orphan_map ≤ n
    → (t : Orphans) × (store_orphan now n o s ≡ some t)
      × IsPaired t
      × (length t.orphan_map ≤ n)
      × (get o.hash t.orphan_map ≡ some o)
unfolding store_orphan
store_orphan-IsPaired now n o s p g z l =
    let (r, q, k, b) = drop_forked-Leaves o s p g in
    let (t, q', k', l') = limit_orphans-Leaves now n r k.0 z (omega (arith, k.1)) in
    let g' = k'.2 o.hash (k.2 o.hash g) in
    let b' = k'.3 o.prev_block b in
    (
      added o t,
      rw (q, q') (add_orphan-added o t g' b'),
      added-IsPaired o t k'.0 g' b',
      omega (arith, length-set o.hash o t.orphan_map g'),
      get-same o.hash t.orphan_map o,
    )

resolve_after :
    (hash : ℕ) (o : Orphan) (s t : Orphans)
    → get hash s.orphan_prev ≡ some o
    → remove_orphan o s ≡ some t
    → resolve_orphan hash s ≡ some (some o, t)
unfolding resolve_orphan
resolve_after hash o s t g r = rw (resolve_orphan, g, r) refl

-- A block lets in the orphan that waits for it, if there is one, and none waits for it afterwards;
-- the maps stay paired.
pub resolve_orphan-IsPaired :
    (hash : ℕ) (s : Orphans)
    → IsPaired s
    → (t : Orphans) × (resolve_orphan hash s ≡ some (get hash s.orphan_prev, t))
      × IsPaired t
      × (get hash t.orphan_prev ≡ none)
unfolding resolve_orphan
resolve_orphan-IsPaired hash s p = elim (Option-cases (get hash s.orphan_prev)) [
  | inl n ↦ (s, rw (resolve_orphan, n) refl, p, n)
  | inr (o, k) ↦
      let (e, j) = p.by_prev hash o k in
      (
        removed o s,
        resolve_after hash o s (removed o s) k (remove_orphan-removed o s p j)
            ∙ ap (λ x. some (x, removed o s)) (sym k),
        removed-IsPaired o s p j,
        ground (arith, get-delete o.prev_block hash s.orphan_prev p.prev_keys),
      )
]
