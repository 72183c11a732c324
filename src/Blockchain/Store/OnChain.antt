-- ===== src/Blockchain/Store/OnChain.antt =====
-- `isMainChain` of lib/blockchain/chaindb.js.
use litedoge_js.Prelude.{◌≡◌, sym, ap, ◌∙◌, subst, ◌↔◌, inl, inr, some, arith}
use litedoge_js.Prelude.{Bool-cases, Option-cases, true, ==→eq, ◌==◌}
use litedoge_js.Blockchain.Block.{ChainEntry, is_genesis}
use litedoge_js.Blockchain.Index.{IsIn, Ancestor, here, up}
use litedoge_js.Blockchain.Index.Ancestors.{
  Ancestor-child, Ancestor-at, same_hash, Ancestor-trans, at_zero,
}
use litedoge_js.Blockchain.Store.{Store, is_main_chain}
use litedoge_js.Blockchain.Store.MainChain.{IsMainChain}

-- `isMainChain` tells the ancestors of the tip from the other entries.
pub is_main_chain-Ancestor :
    (genesis tip e : ChainEntry) (s : Store)
    → IsMainChain genesis s tip
    → IsIn s.entries e
    → (is_main_chain s e ≡ true) ↔ Ancestor s.entries e tip
unfolding is_main_chain is_genesis
is_main_chain-Ancestor genesis tip e s m i = (to, from)
  where
    to : is_main_chain s e ≡ true → Ancestor s.entries e tip
    to h = elim (Bool-cases (e.height == 0)) [
      | inl z ↦
          let (a, r, ha, ia) =
            Ancestor-at s.entries genesis m.0 tip.height 0 tip m.1 (omega arith) in
          subst (λ x. Ancestor s.entries x tip)
            (at_zero s.entries genesis m.0 a e ia i ha (==→eq e.height 0 z)) r
      | inr z ↦ elim (Bool-cases (e.hash == s.db.pending.tip)) [
        | inl t ↦
            subst (λ x. Ancestor s.entries e x)
              (same_hash s.entries e tip i m.1 (==→eq e.hash s.db.pending.tip t ∙ m.2)) here
        | inr t ↦ elim (Option-cases (s.next e.hash)) [
          | inl n ↦ absurd (ground arith)
          | inr (y, n) ↦
              let (a, r, u, w) = m.3.only_next e.hash y n in
              Ancestor-trans s.entries e a tip
                (up (subst (λ x. s.entries x ≡ some e) (sym w) i) here) r
        ]
      ]
    ]

    from : Ancestor s.entries e tip → is_main_chain s e ≡ true
    from r = elim (Ancestor-child s.entries e tip r) [
      | inl z ↦ ground (arith, m.2, ap (λ (x : ChainEntry). x.hash) z)
      | inr (c, q, k) ↦ ground (arith, m.3.nexts c e q k)
    ]
