-- ===== src/Blockchain/Chain/Best.antt =====
-- `reorganize` and `setBestChain` of lib/blockchain/chain.js. The competitor is not in the index yet.
use litedoge_js.Prelude.{
  suc, ◌≡◌, refl, sym, ◌∙◌, subst, ◌⊎◌, inl, inr, Option, none, some, List, [], ◌∷◌, arith,
}
use litedoge_js.Prelude.{Option-cases}
use litedoge_js.Blockchain.Block.{ChainEntry}
use litedoge_js.Blockchain.Index.{Index, IsIndex, IsIn}
use litedoge_js.Blockchain.Index.Ancestors.{prev-IsIn}
use litedoge_js.Blockchain.Index.Path.{IsPath, IsPath-nil, IsPath-cons}
use litedoge_js.Blockchain.Chain.{
  Chain, returned, raised, unfinished, Rules, disconnect_all, reconnect_above,
}
use litedoge_js.Blockchain.Records.{write-same}
use litedoge_js.Blockchain.Index.{done, find_fork, path_to}
use litedoge_js.Blockchain.Index.Ancestors.{same_entry}
use litedoge_js.Blockchain.Index.Extended.{
  IsNew, extended, extended-old, extended-prev, extended-IsIndex, extended-Ancestor,
}
use litedoge_js.Blockchain.Index.Agree.{find_fork-agree, path_to-agree}
use litedoge_js.Blockchain.Index.Fork.{find_fork-IsFork}
use litedoge_js.Blockchain.Index.Path.{path_to-IsPath, end, link}
use litedoge_js.Blockchain.Store.MainChain.{Ancestor-IsIn}
use litedoge_js.Blockchain.Chain.{reorganize}
use litedoge_js.Blockchain.Chain.Moves.{IsChain, Ends}
use litedoge_js.Blockchain.Chain.Lists.{then_Ends, disconnect_all-Ends, reconnect_above-Ends}

none_or_some : {o : Option ChainEntry} {a : ChainEntry} → o ≡ none → o ≡ some a → ⊥
none_or_some h k = cc

module _ (index : Index) (genesis prev e : ChainEntry) (valid : IsIndex index genesis)
    (new : IsNew index genesis prev e) where
  abbrev Known : ChainEntry → Type 0
  Known x = IsIn index x ⊎ (x ≡ e)

  agree : (x : ChainEntry) → Known x → index x.prev_block ≡ extended index e x.prev_block
  agree x (inr z) =
      subst (λ (y : ChainEntry). index y.prev_block ≡ extended index e y.prev_block) (sym z)
        (new.after ∙ sym (extended-old index genesis prev e valid new e.prev_block prev new.after))
  agree x (inl i) = elim (Option-cases (index x.prev_block)) [
    | inr (p, h) ↦ h ∙ sym (extended-old index genesis prev e valid new x.prev_block p h)
    | inl h ↦ elim (Option-cases (extended index e x.prev_block)) [
      | inl k ↦ h ∙ sym k
      | inr (p, k) ↦ absurd (none_or_some h (extended-prev index genesis prev e valid new x p i k))
    ]
  ]

  Known-prev : (x p : ChainEntry) → Known x → extended index e x.prev_block ≡ some p → Known p
  Known-prev x p k h = inl (prev-IsIn index genesis valid x.prev_block p (agree x k ∙ h))

  shrink :
      (x f : ChainEntry) (es : List ChainEntry)
      → IsIn index x
      → IsPath (extended index e) x es f
      → IsPath index x es f
  shrink x f es i end = end
  shrink x f es i (link {p = p} {es = es'} k w) =
      let k' = extended-prev index genesis prev e valid new x p i k in
      link k' (shrink p f es' (prev-IsIn index genesis valid x.prev_block p k') w)

  -- The list to connect starts with the new block.
  above :
      (f : ChainEntry)
      → IsIn index f
      → (es : List ChainEntry) × (path_to (suc e.height) (extended index e) e f ≡ done es)
        × IsPath (extended index e) e es f
      → (on : List ChainEntry) × (path_to (suc e.height) (extended index e) e f ≡ done (e ∷ on))
        × IsPath index prev on f
  above f i ([], q, w) =
      absurd (none_or_some new.unknown (subst (IsIn index) (sym (IsPath-nil w)) i))
  above f i (x ∷ es, q, w) =
      let (z, (p, k, v)) = IsPath-cons w in
      let k' = subst (λ (y : ChainEntry). extended index e y.prev_block ≡ some p) (sym z) k in
      let t =
        same_entry k' (extended-old index genesis prev e valid new e.prev_block prev new.after) in
      (
        es,
        subst (λ y. path_to (suc e.height) (extended index e) e f ≡ done (y ∷ es)) (sym z) q,
        shrink prev f es (prev-IsIn index genesis valid e.prev_block prev new.after)
            (subst (λ y. IsPath (extended index e) y es f) t v),
      )

  -- The loops find the fork, and the lists of blocks on either side of it.
  sides :
      (tip : ChainEntry)
      → IsIn index tip
      → (f : ChainEntry) × (off on : List ChainEntry) × (find_fork (suc tip.height) index tip e
          ≡ done f)
        × (path_to (suc tip.height) index tip f ≡ done off)
        × (path_to (suc e.height) index e f ≡ done (e ∷ on))
        × IsPath index tip off f
        × IsPath index prev on f
  sides tip i =
      let ext = extended index e in
      let valid' = extended-IsIndex index genesis prev e valid new in
      let e_in = write-same e.hash (some e) index in
      let (f, q, (af, bf, best)) =
        find_fork-IsFork ext genesis valid' (suc tip.height) tip e
          (extended-old index genesis prev e valid new tip.hash tip i) e_in (omega arith) in
      let af' = extended-Ancestor index genesis prev e valid new f tip i af in
      let f_in = Ancestor-IsIn index genesis valid f tip i af' in
      let (off, p, w) =
        path_to-IsPath index genesis valid (suc tip.height) tip f i f_in af' (omega arith) in
      let (on, r, v) = above f f_in (
        path_to-IsPath ext genesis valid' (suc e.height) e f e_in
          (extended-old index genesis prev e valid new f.hash f f_in) bf (omega arith)) in
      (
        f,
        off,
        on,
        find_fork-agree index ext Known agree Known-prev (suc tip.height) tip e (inl i) (inr refl)
            ∙ q,
        p,
        path_to-agree index ext Known agree Known-prev (suc e.height) e f (inr refl) ∙ r,
        w,
        v,
      )

reorganize-lists :
    (r : Rules) (e f : ChainEntry) (off on : List ChainEntry) (c : Chain)
    → find_fork (suc c.tip.height) c.store.entries c.tip e ≡ done f
    → path_to (suc c.tip.height) c.store.entries c.tip f ≡ done off
    → path_to (suc e.height) c.store.entries e f ≡ done (e ∷ on)
    → reorganize r e c ≡ (elim (disconnect_all off c) [
      | returned c' ↦ reconnect_above r on c'
      | raised x c' ↦ raised x c'
      | unfinished ↦ unfinished
    ])
unfolding reorganize
reorganize-lists r e f off on c h p q = rw (reorganize, h, p, q) refl

-- `reorganize` for a new block after `prev` never runs out of previous entries and ends with a
-- consistent chain, also where a block fails; if it returns, the tip is `prev`.
pub reorganize-Ends :
    (genesis prev e : ChainEntry) (r : Rules) (c : Chain)
    → IsChain genesis c
    → IsNew c.store.entries genesis prev e
    → Ends genesis c.store.entries prev (reorganize r e c)
reorganize-Ends genesis prev e r c m new =
    let valid = m.0.0 in
    let (f, off, on, h, p, q, w, v) = sides c.store.entries genesis prev e valid new c.tip m.0.1 in
    subst (Ends genesis c.store.entries prev) (sym (reorganize-lists r e f off on c h p q)) (
      then_Ends genesis c.store.entries f prev (disconnect_all off c) (reconnect_above r on)
        (disconnect_all-Ends genesis f off c m w)
        λ c' m' k t.
          subst (λ i. Ends genesis i prev (reconnect_above r on c')) k
            (reconnect_above-Ends genesis prev f r on c' m'
              (subst (λ i. IsIn i prev) (sym k)
                (prev-IsIn c.store.entries genesis valid e.prev_block prev new.after))
              (subst (λ i. IsPath i prev on f) (sym k) v) t))
