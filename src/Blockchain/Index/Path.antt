-- ===== src/Blockchain/Index/Path.antt =====
-- The lists `disconnect` and `connect` of `reorganize` in lib/blockchain/chain.js.
use litedoge_js.Prelude.{ℕ, zero, suc, ◌<◌, ◌≡◌, refl, ap, subst, inl, inr, some, List, [], ◌∷◌}
use litedoge_js.Prelude.{arith, Bool-cases, ◌==◌, ==→eq}
use litedoge_js.Blockchain.Block.{ChainEntry}
use litedoge_js.Blockchain.Index.{Index, done, get_previous, path_to, IsIndex, IsIn, Ancestor}
use litedoge_js.Blockchain.Index.Ancestors.{same_hash, prev-IsIn, prev_height, Ancestor-step}

-- The entries from one down to an ancestor of it, which is left out.
pub data IsPath (index : Index) : ChainEntry → List ChainEntry → ChainEntry → Type 0 where
  end : {e : ChainEntry} → IsPath index e [] e
  link :
      {e p f : ChainEntry} {es : List ChainEntry}
      → index e.prev_block ≡ some p
      → IsPath index p es f
      → IsPath index e (e ∷ es) f

pub IsPath-nil : {index : Index} {e f : ChainEntry} → IsPath index e [] f → e ≡ f
IsPath-nil end = refl

pub IsPath-cons :
    {index : Index} {e x f : ChainEntry} {es : List ChainEntry}
    → IsPath index e (x ∷ es) f
    → (e ≡ x) × ((p : ChainEntry) × (index x.prev_block ≡ some p) × IsPath index p es f)
IsPath-cons (link {p = p} k w) = (refl, (p, k, w))

module _ (index : Index) (genesis : ChainEntry) (valid : IsIndex index genesis) where
  pub path_to-IsPath :
      (n : ℕ) (e f : ChainEntry)
      → IsIn index e
      → IsIn index f
      → Ancestor index f e
      → e.height < n
      → (es : List ChainEntry) × (path_to n index e f ≡ done es) × IsPath index e es f
  unfolding path_to get_previous
  path_to-IsPath zero e f ie if' r h = absurd (omega arith)
  path_to-IsPath (suc n) e f ie if' r h = elim (Bool-cases (e.hash == f.hash)) [
    | inl t ↦ (
      [],
      rw t refl,
      subst (IsPath index e []) (same_hash index e f ie if' (==→eq e.hash f.hash t)) end,
    )
    | inr t ↦ elim (Ancestor-step index f e r) [
      | inl z ↦ absurd (ground (arith, ap (λ (x : ChainEntry). x.hash) z))
      | inr (p, k, s) ↦
          let (es, q, w) =
            path_to-IsPath n p f (prev-IsIn index genesis valid e.prev_block p k) if' s
              (omega (arith, prev_height index genesis valid e p ie k)) in
          (e ∷ es, rw (t, k, q) refl, link k w)
    ]
  ]
