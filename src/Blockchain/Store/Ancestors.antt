-- ===== src/Blockchain/Store/Ancestors.antt =====
-- `getEntryByHeight` and `getAncestor` of lib/blockchain/chaindb.js.
use litedoge_js.Prelude.{
  ℕ, zero, suc, ◌-◌, ◌≤◌, ◌<◌, ◌≡◌, refl, ap, subst, inl, inr, Option, none, some, arith,
  Bool-cases, false, ltb, ◌==◌, if◌then◌else◌,
}
use litedoge_js.Prelude.Int.{ℤ, pos, negsuc}
use litedoge_js.Blockchain.Block.{ChainEntry}
use litedoge_js.Blockchain.Index.{
  Index, Loop, done, no_previous, running, IsIndex, IsIn, Ancestor, here, up, walk_to, get_previous,
}
use litedoge_js.Blockchain.Index.Ancestors.{Ancestor-at, Ancestor-trans, has_prev}
use litedoge_js.Blockchain.Store.{Store, is_main_chain}
use litedoge_js.Blockchain.Store.MainChain.{IsMainChain}
use litedoge_js.Blockchain.Store.OnChain.{is_main_chain-Ancestor}

unfoldable pub get_entry_by_height : Store → ℕ → Option ChainEntry
get_entry_by_height s h = elim (s.hash_at h) [ none ↦ none | some x ↦ s.entries x ]

abbrev some_done : Loop ChainEntry → Loop (Option ChainEntry)
some_done (done e) = done (some e)
some_done no_previous = no_previous
some_done running = running

-- A height above the entry's fails an assertion.
unfoldable pub get_ancestor : Store → ChainEntry → ℤ → Loop (Option ChainEntry)
unfolding get_entry_by_height is_main_chain walk_to
get_ancestor s e (negsuc n) = done none
get_ancestor s e (pos h) =
    if ltb e.height h
    then no_previous
    else if is_main_chain s e
    then done (get_entry_by_height s h)
    else some_done (walk_to (suc e.height) s.entries e h)

strictly : (a h : ℕ) → h ≤ a → (a == h) ≡ false → h < a
strictly a h l f = ground arith

by_height :
    (s : Store) (h : ℕ) (a : ChainEntry)
    → s.hash_at h ≡ some a.hash
    → IsIn s.entries a
    → get_entry_by_height s h ≡ some a
unfolding get_entry_by_height
by_height s h a k i = rw (get_entry_by_height, k) i

walk_to-Ancestor :
    (index : Index) (genesis e : ChainEntry) (n h : ℕ)
    → IsIndex index genesis
    → IsIn index e
    → h ≤ e.height
    → e.height < n
    → (a : ChainEntry) × (walk_to n index e h ≡ done a) × Ancestor index a e × (a.height ≡ h)
unfolding walk_to get_previous
walk_to-Ancestor index genesis e zero h valid i le l = absurd (omega arith)
walk_to-Ancestor index genesis e (suc n) h valid i le l = elim (Bool-cases (e.height == h)) [
  | inl t ↦ (e, rw t refl, here, ground arith)
  | inr f ↦
      let (p, k, ip, hp) =
        has_prev index genesis valid e (e.height - 1) i (omega (arith, strictly e.height h le f)) in
      let (a, q, r, z) =
        walk_to-Ancestor index genesis p n h valid ip (omega (arith, strictly e.height h le f))
          (omega (arith, strictly e.height h le f)) in
      (a, rw (f, k) q, up k r, z)
]

-- `getAncestor` gives the ancestor at the height asked for, by the heights of the main chain as well
-- as by the walk.
pub get_ancestor_lem :
    (genesis tip e : ChainEntry) (s : Store) (h : ℕ)
    → IsMainChain genesis s tip
    → IsIn s.entries e
    → h ≤ e.height
    → (a : ChainEntry) × (get_ancestor s e (pos h) ≡ done (some a))
      × Ancestor s.entries a e
      × (a.height ≡ h)
unfolding get_ancestor
get_ancestor_lem genesis tip e s h m i le = elim (Bool-cases (is_main_chain s e)) [
  | inl t ↦
      let (a, r, z, ia) = Ancestor-at s.entries genesis m.0 (e.height - h) h e i (omega arith) in
      let e_to_tip = (is_main_chain-Ancestor genesis tip e s m i).0 t in
      let hash =
        subst (λ n. s.hash_at n ≡ some a.hash) z
          (m.3.heights a (Ancestor-trans s.entries a e tip r e_to_tip)) in
      (a, rw (not_above e.height h le, t) (ap done (by_height s h a hash ia)), r, z)
  | inr f ↦
      let (a, q, r, z) =
        walk_to-Ancestor s.entries genesis e (suc e.height) h m.0 i le (omega arith) in
      (a, rw (not_above e.height h le, f) (ap some_done q), r, z)
]
  where
    not_above : (a b : ℕ) → b ≤ a → ltb a b ≡ false
    not_above a b l = ground arith
