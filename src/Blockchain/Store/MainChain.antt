-- ===== src/Blockchain/Store/MainChain.antt =====
-- The indexes of the main chain in lib/blockchain/chaindb.js against the ancestors of the tip.
use litedoge_js.Prelude.{
  ℕ, suc, ◌<◌, ◌≡◌, ◌≢◌, sym, ap, ◌∙◌, subst, inl, inr, Option, none, some, arith,
}
use litedoge_js.Prelude.{Bool-cases, ==→eq, ◌==◌}
use litedoge_js.Blockchain.Block.{ChainEntry}
use litedoge_js.Blockchain.Index.{Index, IsIndex, IsIn, Ancestor, here, up}
use litedoge_js.Blockchain.Index.Ancestors.{
  same_hash, prev-IsIn, prev_height, Ancestor-height, Ancestor-prev,
}
use litedoge_js.Blockchain.Records.{write, write-same, write-other, write-cases}
use litedoge_js.Blockchain.Store.{Store}

-- The heights up to the tip's name the ancestors of the tip, and each of these but the tip names
-- the next.
pub record Follows (index : Index) (hash_at next : ℕ → Option ℕ) (tip : ChainEntry) : Type 0 where
  pub heights : (a : ChainEntry) → Ancestor index a tip → hash_at a.height ≡ some a.hash
  pub above : (h : ℕ) → tip.height < h → hash_at h ≡ none
  pub nexts :
      (a p : ChainEntry)
      → Ancestor index a tip
      → index a.prev_block ≡ some p
      → next p.hash ≡ some a.hash
  pub only_next :
      (x y : ℕ)
      → next x ≡ some y
      → (a : ChainEntry) × Ancestor index a tip × (a.hash ≡ y) × (a.prev_block ≡ x)

abbrev pub IsMainChain : ChainEntry → Store → ChainEntry → Type 0
IsMainChain genesis s tip =
    IsIndex s.entries genesis
    × IsIn s.entries tip
    × (s.db.pending.tip ≡ tip.hash)
    × Follows s.entries s.hash_at s.next tip

pub unwrap_some : {a b : ℕ} → some a ≡ some b → a ≡ b
unwrap_some {a} {b} h = cc

abbrev height_of : ChainEntry → ℕ
height_of e = e.height

module _ (index : Index) (genesis : ChainEntry) (valid : IsIndex index genesis) where
  different_hash :
      (e p : ChainEntry) → IsIn index e → IsIn index p → p.height < e.height → e.hash ≢ p.hash
  different_hash e p ie ip h q = absurd (omega (arith, ap height_of (same_hash index e p ie ip q)))

  pub Ancestor-IsIn : (a e : ChainEntry) → IsIn index e → Ancestor index a e → IsIn index a
  Ancestor-IsIn a e i here = i
  Ancestor-IsIn a e i (up {p = p} k r) =
      Ancestor-IsIn a p (prev-IsIn index genesis valid e.prev_block p k) r

  module _ (hash_at next : ℕ → Option ℕ) (e tip : ChainEntry) (q : index e.prev_block ≡ some tip)
      (ie : IsIn index e) where
    up_height : e.height ≡ suc tip.height
    up_height = prev_height index genesis valid e tip ie q

    tip_hash : tip.hash ≡ e.prev_block
    tip_hash = (valid e.prev_block tip q).0

    tip-IsIn : IsIn index tip
    tip-IsIn = prev-IsIn index genesis valid e.prev_block tip q

    tip_is : (a p : ChainEntry) → a ≡ e → index a.prev_block ≡ some p → p.hash ≡ e.prev_block
    tip_is a p x k = (valid a.prev_block p k).0 ∙ ap (λ (z : ChainEntry). z.prev_block) x

    not_tip :
        (a p : ChainEntry)
        → index a.prev_block ≡ some p
        → Ancestor index a tip
        → e.prev_block ≢ p.hash
    not_tip a p k t z =
        different_hash tip p tip-IsIn (prev-IsIn index genesis valid a.prev_block p k)
          (omega (
            arith,
            prev_height index genesis valid a p (Ancestor-IsIn a tip tip-IsIn t) k,
            Ancestor-height index genesis valid a tip tip-IsIn t,
          ))
          (tip_hash ∙ z)

    -- `e` is put after the tip.
    pub up_the_chain :
        Follows index hash_at next tip
        → Follows index
            (write e.height (some e.hash) hash_at)
            (write e.prev_block (some e.hash) next)
            e
    up_the_chain m = record {
      heights = λ a r. elim (Ancestor-prev index genesis valid a e tip q r) [
        | inl x ↦
            subst (λ (z : ChainEntry). write e.height (some e.hash) hash_at z.height ≡ some z.hash)
              (sym x) (write-same e.height (some e.hash) hash_at)
        | inr t ↦
            write-other e.height a.height (some e.hash) hash_at
              (λ z. omega (arith, up_height, Ancestor-height index genesis valid a tip tip-IsIn t))
            ∙ m.heights a t
      ];
      above = λ h l.
          write-other e.height h (some e.hash) hash_at (λ z. omega arith)
          ∙ m.above h (omega (arith, up_height));
      nexts = λ a p r k. elim (Ancestor-prev index genesis valid a e tip q r) [
        | inl x ↦
            subst (λ (z : ChainEntry). write e.prev_block (some e.hash) next p.hash ≡ some z.hash)
              (sym x)
              (ap (write e.prev_block (some e.hash) next) (tip_is a p x k)
                ∙ write-same e.prev_block (some e.hash) next)
        | inr t ↦
            write-other e.prev_block p.hash (some e.hash) next (not_tip a p k t) ∙ m.nexts a p t k
      ];
      only_next = λ x y k. elim (write-cases e.prev_block x (some e.hash) next y k) [
        | inl (i, j) ↦ (e, here, unwrap_some j, i)
        | inr (n, j) ↦ let (a, r, u, w) = m.only_next x y j in (a, up q r, u, w)
      ];
    }

    -- `e` is taken off, and the entry before it becomes the tip.
    pub down_the_chain :
        Follows index hash_at next e
        → Follows index (write e.height none hash_at) (write e.prev_block none next) tip
    down_the_chain m = record {
      heights = λ a r.
          write-other e.height a.height none hash_at
            (λ z. omega (arith, up_height, Ancestor-height index genesis valid a tip tip-IsIn r))
          ∙ m.heights a (up q r);
      above = λ h l. elim (Bool-cases (e.height == h)) [
        | inl t ↦
            subst (λ z. write e.height none hash_at z ≡ none) (==→eq e.height h t)
              (write-same e.height none hash_at)
        | inr f ↦
            write-other e.height h none hash_at (λ z. ground arith)
            ∙ m.above h (ground (arith, up_height))
      ];
      nexts = λ a p r k.
          write-other e.prev_block p.hash none next (not_tip a p k r) ∙ m.nexts a p (up q r) k;
      only_next = λ x y k. elim (write-cases e.prev_block x none next y k) [
        | inl (i, j) ↦ absurd (ground arith)
        | inr (n, j) ↦
            let (a, r, u, w) = m.only_next x y j in
            elim (Ancestor-prev index genesis valid a e tip q r) [
              | inr t ↦ (a, t, u, w)
              | inl z ↦ absurd (n (ap (λ (v : ChainEntry). v.prev_block) (sym z) ∙ w))
            ]
      ];
    }
