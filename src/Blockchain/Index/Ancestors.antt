-- ===== src/Blockchain/Index/Ancestors.antt =====
-- Ancestors in the index of blocks.
use litedoge_js.Prelude.{
  ℕ, zero, suc, ◌+◌, ◌≤◌, ◌≡◌, refl, sym, ap, ◌∙◌, subst, ◌⊎◌, inl, inr, Option, none, some, arith,
}
use litedoge_js.Blockchain.Block.{ChainEntry}
use litedoge_js.Blockchain.Index.{Index, IsIndex, IsIn, Ancestor, here, up}

abbrev unwrap : ChainEntry → Option ChainEntry → ChainEntry
unwrap d none = d
unwrap d (some e) = e

pub same_entry : {a b : ChainEntry} {o : Option ChainEntry} → o ≡ some a → o ≡ some b → a ≡ b
same_entry {a} {b} p q = ap (unwrap a) (sym p ∙ q)

pub same_hash :
    (index : Index) (a b : ChainEntry) → IsIn index a → IsIn index b → a.hash ≡ b.hash → a ≡ b
same_hash index a b ia ib h = same_entry ia (subst (λ n. index n ≡ some b) (sym h) ib)

pub Ancestor-trans :
    (index : Index) (a b c : ChainEntry)
    → Ancestor index a b
    → Ancestor index b c
    → Ancestor index a c
Ancestor-trans index a b c r here = r
Ancestor-trans index a b c r (up {p = p} k s) = up k (Ancestor-trans index a b p r s)

pub Ancestor-step :
    (index : Index) (a e : ChainEntry)
    → Ancestor index a e
    → (a ≡ e) ⊎ ((p : ChainEntry) × (index e.prev_block ≡ some p) × Ancestor index a p)
Ancestor-step index a e here = inl refl
Ancestor-step index a e (up {p = p} k r) = inr (p, k, r)

module _ (index : Index) (genesis : ChainEntry) (valid : IsIndex index genesis) where
  pub prev-IsIn : (h : ℕ) (p : ChainEntry) → index h ≡ some p → IsIn index p
  prev-IsIn h p e = subst (λ n. index n ≡ some p) (sym (valid h p e).0) e

  pub prev_height :
      (e p : ChainEntry) → IsIn index e → index e.prev_block ≡ some p → e.height ≡ suc p.height
  prev_height e p i h = elim (valid e.hash e i).1 [
    | inl (g, z, n) ↦ cc
    | inr (q, k, s) ↦ s ∙ ap (λ (x : ChainEntry). suc x.height) (same_entry k h)
  ]

  -- Above height 0 there is a previous entry.
  pub has_prev :
      (e : ChainEntry) (n : ℕ)
      → IsIn index e
      → e.height ≡ suc n
      → (p : ChainEntry) × (index e.prev_block ≡ some p) × IsIn index p × (p.height ≡ n)
  has_prev e n i h = elim (valid e.hash e i).1 [
    | inl (g, z, x) ↦ absurd (omega arith)
    | inr (p, k, s) ↦ (p, k, prev-IsIn e.prev_block p k, omega arith)
  ]

  pub at_zero :
      (a b : ChainEntry) → IsIn index a → IsIn index b → a.height ≡ 0 → b.height ≡ 0 → a ≡ b
  at_zero a b ia ib ha hb = elim (valid a.hash a ia).1 [
    | inr (p, k, s) ↦ absurd (omega arith)
    | inl x ↦ elim (valid b.hash b ib).1 [
      | inr (p, k, s) ↦ absurd (omega arith)
      | inl y ↦ x.0 ∙ sym y.0
    ]
  ]

  pub Ancestor-height : (a e : ChainEntry) → IsIn index e → Ancestor index a e → a.height ≤ e.height
  Ancestor-height a e i here = omega arith
  Ancestor-height a e i (up {p = p} k r) =
      omega (arith, prev_height e p i k, Ancestor-height a p (prev-IsIn e.prev_block p k) r)

  -- An ancestor other than the entry itself is one of the previous entry's.
  pub Ancestor-prev :
      (a e p : ChainEntry)
      → index e.prev_block ≡ some p
      → Ancestor index a e
      → (a ≡ e) ⊎ Ancestor index a p
  Ancestor-prev a e p k here = inl refl
  Ancestor-prev a e p k (up {p = q} k' r) = inr (subst (Ancestor index a) (same_entry k' k) r)

  -- Two ancestors of an entry at one height are one.
  pub Ancestor-unique :
      (a b e : ChainEntry)
      → IsIn index e
      → Ancestor index a e
      → Ancestor index b e
      → a.height ≡ b.height
      → a ≡ b
  Ancestor-unique a b e i here here h = refl
  Ancestor-unique a b e i here (up {p = p} k r) h =
      absurd
        (omega (arith, prev_height e p i k, Ancestor-height b p (prev-IsIn e.prev_block p k) r))
  Ancestor-unique a b e i (up {p = p} k r) s h = elim (Ancestor-prev b e p k s) [
    | inl x ↦ absurd (
        omega (
          arith,
          prev_height e p i k,
          Ancestor-height a p (prev-IsIn e.prev_block p k) r,
          ap (λ (y : ChainEntry). y.height) x,
        ))
    | inr t ↦ Ancestor-unique a b p (prev-IsIn e.prev_block p k) r t h
  ]

  -- An ancestor that is no lower is the entry.
  pub Ancestor-itself :
      (a e : ChainEntry) → IsIn index e → Ancestor index a e → e.height ≤ a.height → a ≡ e
  Ancestor-itself a e i r h =
      Ancestor-unique a e e i r here (omega (arith, Ancestor-height a e i r))

  -- There is an ancestor at each height up to the entry's.
  pub Ancestor-at :
      (n h : ℕ) (e : ChainEntry)
      → IsIn index e
      → e.height ≡ n + h
      → (a : ChainEntry) × Ancestor index a e × (a.height ≡ h) × IsIn index a
  Ancestor-at zero h e i q = (e, here, omega arith, i)
  Ancestor-at (suc n) h e i q =
      let (p, k, ip, hp) = has_prev e (n + h) i (omega arith) in
      let (a, r, ha, ia) = Ancestor-at n h p ip hp in (a, up k r, ha, ia)

pub Ancestor-child :
    (index : Index) (a e : ChainEntry)
    → Ancestor index a e
    → (a ≡ e) ⊎ ((c : ChainEntry) × Ancestor index c e × (index c.prev_block ≡ some a))
Ancestor-child index a e here = inl refl
Ancestor-child index a e (up {p = p} k r) = elim (Ancestor-child index a p r) [
  | inl z ↦ inr (e, here, k ∙ ap some (sym z))
  | inr (c, s, j) ↦ inr (c, up k s, j)
]
