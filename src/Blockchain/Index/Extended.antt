-- ===== src/Blockchain/Index/Extended.antt =====
-- The index with a new entry: `cacheHash.push` and the record of an entry in `save` of
-- lib/blockchain/chaindb.js.
use litedoge_js.Prelude.{
  ℕ, suc, ◌≡◌, ◌≢◌, refl, sym, ap, ◌∙◌, subst, ◌⊎◌, inl, inr, Option, none, some,
}
use litedoge_js.Blockchain.Block.{ChainEntry}
use litedoge_js.Blockchain.Records.{write, write-other, write-cases}
use litedoge_js.Blockchain.Index.{Index, IsIndex, IsIn, Ancestor, here, up}
use litedoge_js.Blockchain.Index.Ancestors.{same_entry, prev-IsIn}

-- What makes an entry fit to be added after `prev`.
pub record IsNew (index : Index) (genesis prev e : ChainEntry) : Type 0 where
  pub unknown : index e.hash ≡ none
  pub after : index e.prev_block ≡ some prev
  pub height : e.height ≡ suc prev.height
  pub not_before : e.hash ≢ genesis.prev_block

abbrev pub extended : Index → ChainEntry → Index
extended index e = write e.hash (some e) index

not_both : {A : Type 0} {o : Option A} {a : A} → o ≡ none → o ≡ some a → ⊥
not_both h k = cc

module _ (index : Index) (genesis prev e : ChainEntry) (valid : IsIndex index genesis)
    (new : IsNew index genesis prev e) where
  pub extended-old : (h : ℕ) (x : ChainEntry) → index h ≡ some x → extended index e h ≡ some x
  extended-old h x k =
      write-other e.hash h (some e) index
        (λ z. not_both new.unknown (subst (λ w. index w ≡ some x) (sym z) k))
      ∙ k

  pub extended-prev :
      (x p : ChainEntry)
      → IsIn index x
      → extended index e x.prev_block ≡ some p
      → index x.prev_block ≡ some p
  extended-prev x p i k = elim (write-cases e.hash x.prev_block (some e) index p k) [
    | inr (n, j) ↦ j
    | inl (z, j) ↦ elim (valid x.hash x i).1 [
      | inl (g, h, n) ↦ absurd (new.not_before (z ∙ ap (λ (w : ChainEntry). w.prev_block) g))
      | inr (q, l, h) ↦ absurd (not_both new.unknown (subst (λ w. index w ≡ some q) (sym z) l))
    ]
  ]

  -- The entries that were there keep their ancestors.
  pub Ancestor-extended : (a x : ChainEntry) → Ancestor index a x → Ancestor (extended index e) a x
  Ancestor-extended a x here = here
  Ancestor-extended a x (up {p = p} k r) =
      up (extended-old x.prev_block p k) (Ancestor-extended a p r)

  pub extended-Ancestor :
      (a x : ChainEntry) → IsIn index x → Ancestor (extended index e) a x → Ancestor index a x
  extended-Ancestor a x i here = here
  extended-Ancestor a x i (up {p = p} k r) =
      let k' = extended-prev x p i k in
      up k' (extended-Ancestor a p (prev-IsIn index genesis valid x.prev_block p k') r)

  abbrev Fits : ℕ → ChainEntry → Type 0
  Fits h x =
      (x.hash ≡ h)
      × (((x ≡ genesis) × (x.height ≡ 0) × (extended index e x.prev_block ≡ none))
          ⊎ ((p : ChainEntry) × (extended index e x.prev_block ≡ some p)
              × (x.height ≡ suc p.height)))

  pub extended-IsIndex : IsIndex (extended index e) genesis
  extended-IsIndex h x k = elim (write-cases e.hash h (some e) index x k) [
    | inl (z, j) ↦
        subst (Fits h) (same_entry {o = some x} (sym j) refl)
          (z, inr (prev, extended-old e.prev_block prev new.after, new.height))
    | inr (n, j) ↦ (
      (valid h x j).0,
      (elim (valid h x j).1 [
        | inl (g, l, o) ↦ inl (
          g,
          l,
          write-other e.hash x.prev_block (some e) index
                (λ z. new.not_before (z ∙ ap (λ (w : ChainEntry). w.prev_block) g))
              ∙ o,
        )
        | inr (p, q, l) ↦ inr (p, extended-old x.prev_block p q, l)
      ]),
    )
  ]
