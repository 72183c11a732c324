-- ===== src/Blockchain/Chain/Lists.antt =====
-- The loops of `reorganize` in lib/blockchain/chain.js over the blocks to disconnect and to connect.
use litedoge_js.Prelude.{◌≡◌, refl, sym, ◌∙◌, subst, subst₂, some, List, [], ◌∷◌}
use litedoge_js.Blockchain.Block.{ChainEntry}
use litedoge_js.Blockchain.Index.{Index, IsIn}
use litedoge_js.Blockchain.Index.Ancestors.{prev-IsIn}
use litedoge_js.Blockchain.Index.Path.{IsPath, IsPath-nil, IsPath-cons}
use litedoge_js.Blockchain.Chain.{
  Chain, Result, returned, raised, unfinished, Rules, disconnect, reconnect, disconnect_all,
  reconnect_above,
}
use litedoge_js.Blockchain.Chain.Moves.{IsChain, Ends, disconnect-Ends, reconnect-Ends}

-- A call after another that ends well.
pub then_Ends :
    (genesis : ChainEntry) (entries : Index) (middle tip : ChainEntry) (x : Result)
    (f : Chain → Result)
    → Ends genesis entries middle x
    → ((c : Chain)
        → IsChain genesis c
        → c.store.entries ≡ entries
        → c.tip ≡ middle
        → Ends genesis entries tip (f c))
    → Ends genesis entries tip
        (elim x [ returned c ↦ f c | raised e c ↦ raised e c | unfinished ↦ unfinished ])
then_Ends genesis entries middle tip (returned c) f (m, e, t) h = h c m e t
then_Ends genesis entries middle tip (raised e c) f x h = x
then_Ends genesis entries middle tip unfinished f x h = x

pub disconnect_all-Ends :
    (genesis f : ChainEntry) (es : List ChainEntry) (c : Chain)
    → IsChain genesis c
    → IsPath c.store.entries c.tip es f
    → Ends genesis c.store.entries f (disconnect_all es c)
unfolding disconnect_all
disconnect_all-Ends genesis f [] c m w = (m, refl, IsPath-nil w)
disconnect_all-Ends genesis f (e ∷ es) c m w =
    let (t, (p, k, v)) = IsPath-cons w in
    then_Ends genesis c.store.entries p f (disconnect e c) (disconnect_all es)
      (subst (λ x. Ends genesis c.store.entries p (disconnect x c)) t
        (disconnect-Ends genesis p c m
          (subst (λ (x : ChainEntry). c.store.entries x.prev_block ≡ some p) (sym t) k)))
      λ c' m' q' t'.
        subst (λ i. Ends genesis i f (disconnect_all es c')) q'
          (disconnect_all-Ends genesis f es c' m'
            (subst₂ (λ i x. IsPath i x es f) (sym q') (sym t') v))

pub reconnect_above-Ends :
    (genesis e f : ChainEntry) (r : Rules) (es : List ChainEntry) (c : Chain)
    → IsChain genesis c
    → IsIn c.store.entries e
    → IsPath c.store.entries e es f
    → c.tip ≡ f
    → Ends genesis c.store.entries e (reconnect_above r es c)
unfolding reconnect_above
reconnect_above-Ends genesis e f r [] c m i w t = (m, refl, t ∙ sym (IsPath-nil w))
reconnect_above-Ends genesis e f r (x ∷ es) c m i w t =
    let (z, (p, k, v)) = IsPath-cons w in
    then_Ends genesis c.store.entries p e (reconnect_above r es c) (reconnect r x)
      (reconnect_above-Ends genesis p f r es c m
        (prev-IsIn c.store.entries genesis m.0.0 x.prev_block p k) v t)
      λ c' m' q' t'.
        subst (λ y. Ends genesis c.store.entries y (reconnect r x c')) (sym z)
          (subst (λ i. Ends genesis i x (reconnect r x c')) q'
            (reconnect-Ends genesis x r c' m' (subst₂ (λ j y. IsIn j y) (sym q') z i)
              (subst₂ (λ j y. j x.prev_block ≡ some y) (sym q') (sym t') k)))
