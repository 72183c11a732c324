-- ===== src/Blockchain/Utxo/Inverse.antt =====
-- Undoing a block gives back the coin state that it was applied to.
use litedoge_js.Prelude.{
  ℕ, ◌≡◌, refl, ◌∙◌, sym, ap, subst, true, false, none, some, List, [], ◌∷◌, ◌++◌,
}
use litedoge_js.Prelude.{
  arith, fun_ext, Bool-cases, pop_last-append, Option-cases, inl, inr, All, ◌==◌,
}
use litedoge_js.Prelude.Int.{ℤ}
use litedoge_js.Primitives.Tx.{Outpoint, Tx}
use litedoge_js.Coins.Entry.{Stored}
use litedoge_js.Coins.Spend.Refine.{Utxo, spend_each, take_out, spend_each-none, spend_each-some}
use litedoge_js.Blockchain.Block.{prevouts}
use litedoge_js.Blockchain.Utxo.{
  Ledger, make_coins, remove_coins, put_back, apply_txs, unspend_each, undo_tx, undo_txs, unput,
  make, unmake,
}

-- Two coin states that agree on all other transactions.
abbrev AgreeBut : ℕ → Utxo → Utxo → Type 0
AgreeBut h₀ s t = (h i : ℕ) → (h₀ == h) ≡ false → s h i ≡ t h i

abbrev pub HasNoCoins : Utxo → ℕ → Type 0
HasNoCoins s h = (i : ℕ) → s h i ≡ none

spend_each-nil : (s : Utxo) (us : List Stored) → spend_each [] s us ≡ some (s, us)
unfolding spend_each
spend_each-nil s us = refl

unput-append :
    (p : Outpoint) (t : Utxo) (us : List Stored) (c : Stored)
    → unput p (t, us ++ (c ∷ [])) ≡ some (put_back p c t, us)
unfolding unput
unput-append p t us c = rw (pop_last-append us c, unput)

put_back-take_out :
    (h₀ : ℕ) (p : Outpoint) (c : Stored) (s t : Utxo)
    → s p.hash p.index ≡ some c
    → AgreeBut h₀ t (take_out p s)
    → AgreeBut h₀ (put_back p c t) s
put_back-take_out h₀ p c s t e a h i n = ground (arith, a h i n)

pub unspend-spend :
    (h₀ : ℕ) (ps : List Outpoint) (s : Utxo) (us : List Stored) (s₁ : Utxo) (us₁ : List Stored)
    → spend_each ps s us ≡ some (s₁, us₁)
    → (t : Utxo) → AgreeBut h₀ t s₁
    → (t' : Utxo) × (unspend_each ps (t, us₁) ≡ some (t', us)) × AgreeBut h₀ t' s
unfolding unspend_each
unspend-spend h₀ [] s us s₁ us₁ e t a =
    let f = sym (spend_each-nil s us) ∙ e in
    let es : s ≡ s₁ = cc f in
    let eu : us ≡ us₁ = cc f in (t, rw eu, λ h i n. a h i n ∙ ap (λ (x : Utxo). x h i) (sym es))
unspend-spend h₀ (p ∷ ps) s us s₁ us₁ e t a = elim (Option-cases (s p.hash p.index)) [
  | inl g ↦ absurd (cc (e, spend_each-none p ps s us g))
  | inr (c, g) ↦
      let (t', r, k) =
        unspend-spend h₀ ps (take_out p s) (us ++ (c ∷ [])) s₁ us₁
          (sym (spend_each-some p ps s us c g) ∙ e) t a in
      (put_back p c t', rw r (unput-append p t' us c), put_back-take_out h₀ p c s t' g k)
]

-- Spending makes no coin.
pub spend_each-keeps_none :
    (h i : ℕ) (ps : List Outpoint) (s : Utxo) (us : List Stored) (s₁ : Utxo) (us₁ : List Stored)
    → spend_each ps s us ≡ some (s₁, us₁)
    → s h i ≡ none
    → s₁ h i ≡ none
spend_each-keeps_none h i [] s us s₁ us₁ e n =
    let f = sym (spend_each-nil s us) ∙ e in
    let es : s ≡ s₁ = cc f in subst (λ (x : Utxo). x h i ≡ none) es n
spend_each-keeps_none h i (p ∷ ps) s us s₁ us₁ e n = elim (Option-cases (s p.hash p.index)) [
  | inl g ↦ absurd (cc (e, spend_each-none p ps s us g))
  | inr (c, g) ↦
      spend_each-keeps_none h i ps (take_out p s) (us ++ (c ∷ [])) s₁ us₁
        (sym (spend_each-some p ps s us c g) ∙ e) (ground arith)
]

-- No transaction of a list has a coin yet, and no two have the same hash.
abbrev pub AreNew : Utxo → List Tx → Type 0
AreNew s txs = All (λ (tx : Tx). HasNoCoins s tx.hash) txs

abbrev pub HashNotIn : ℕ → List Tx → Type 0
HashNotIn h txs = All (λ (tx : Tx). (h == tx.hash) ≡ false) txs

abbrev pub HasDistinctHashes : List Tx → Type 0
HasDistinctHashes [] = Unit
HasDistinctHashes (tx ∷ txs) = HashNotIn tx.hash txs × HasDistinctHashes txs

pub AreNew-make :
    (tx : Tx) (height : ℤ) (s : Utxo) (txs : List Tx)
    → HashNotIn tx.hash txs
    → AreNew s txs
    → AreNew (make_coins tx height s) txs
AreNew-make tx height s [] d n = tt
AreNew-make tx height s (t ∷ txs) d n =
    (λ i. ground (arith, d.0, n.0 i), AreNew-make tx height s txs d.1 n.1)

pub AreNew-spend :
    (ps : List Outpoint) (s : Utxo) (us : List Stored) (s₁ : Utxo) (us₁ : List Stored)
    (txs : List Tx)
    → spend_each ps s us ≡ some (s₁, us₁)
    → AreNew s txs
    → AreNew s₁ txs
AreNew-spend ps s us s₁ us₁ [] e n = tt
AreNew-spend ps s us s₁ us₁ (t ∷ txs) e n = (
  λ i. spend_each-keeps_none t.hash i ps s us s₁ us₁ e (n.0 i),
  AreNew-spend ps s us s₁ us₁ txs e n.1,
)

remove-AgreeBut :
    (tx : Tx) (s t : Utxo) → HasNoCoins s tx.hash → AgreeBut tx.hash t s → remove_coins tx t ≡ s
remove-AgreeBut tx s t n a = fun_ext λ h. fun_ext λ i. elim (Bool-cases (tx.hash == h)) [
  | inl e ↦ ground (arith, e, n i)
  | inr e ↦ ground (arith, e, a h i e)
]

make-AgreeBut : (tx : Tx) (height : ℤ) (s : Utxo) → AgreeBut tx.hash (make_coins tx height s) s
make-AgreeBut tx height s h i n = ground (arith, n)

pub apply_txs-first :
    (height : ℤ) (tx : Tx) (txs : List Tx) (l : Ledger)
    → apply_txs true height (tx ∷ txs) l ≡ apply_txs false height txs (make tx height l)
unfolding apply_txs
apply_txs-first height tx txs l = refl

pub apply_txs-none :
    (height : ℤ) (tx : Tx) (txs : List Tx) (l : Ledger)
    → spend_each (prevouts tx) l.0 l.1 ≡ none
    → apply_txs false height (tx ∷ txs) l ≡ none
unfolding apply_txs
apply_txs-none height tx txs l h = ground arith

pub apply_txs-some :
    (height : ℤ) (tx : Tx) (txs : List Tx) (l l' : Ledger)
    → spend_each (prevouts tx) l.0 l.1 ≡ some l'
    → apply_txs false height (tx ∷ txs) l ≡ apply_txs false height txs (make tx height l')
unfolding apply_txs
apply_txs-some height tx txs l l' h = ground arith

undo_tx-some :
    (tx : Tx) (l l' : Ledger)
    → unspend_each (prevouts tx) l ≡ some l'
    → undo_tx false tx l ≡ some (unmake tx l')
unfolding undo_tx
undo_tx-some tx l l' h = ground arith

undo_tx-spent :
    (tx : Tx) (height : ℤ) (s : Utxo) (us : List Stored) (s₁ : Utxo) (us₁ : List Stored)
    → spend_each (prevouts tx) s us ≡ some (s₁, us₁)
    → HasNoCoins s tx.hash
    → undo_tx false tx (make_coins tx height s₁, us₁) ≡ some (s, us)
undo_tx-spent tx height s us s₁ us₁ e n =
    let (t, r, k) =
      unspend-spend tx.hash (prevouts tx) s us s₁ us₁ e (make_coins tx height s₁)
        (make-AgreeBut tx height s₁) in
    rw (undo_tx-some tx (make_coins tx height s₁, us₁) (t, us) r, remove-AgreeBut tx s t n k)

-- Undoing transactions that were applied gives back the ledger, where each hash is new.
pub undo-apply :
    (height : ℤ) (txs : List Tx) (l l₁ : Ledger)
    → HasDistinctHashes txs
    → AreNew l.0 txs
    → apply_txs false height txs l ≡ some l₁
    → undo_txs false txs l₁ ≡ some l
unfolding undo_txs
undo-apply height [] l l₁ d n e = unfold apply_txs in cc
undo-apply height (tx ∷ txs) l l₁ d n e = elim (Option-cases (spend_each (prevouts tx) l.0 l.1)) [
  | inl g ↦ absurd (cc (e, apply_txs-none height tx txs l g))
  | inr ((s', us'), g) ↦
      rw
        (undo-apply height txs (make_coins tx height s', us') l₁ d.1
          (AreNew-make tx height s' txs d.0 (AreNew-spend (prevouts tx) l.0 l.1 s' us' txs g n.1))
          (sym (apply_txs-some height tx txs l (s', us') g) ∙ e))
        (undo_tx-spent tx height l.0 l.1 s' us' g n.0)
]

-- The same with the first transaction of a block, which spends nothing.
pub undo-apply_block :
    (height : ℤ) (txs : List Tx) (l l₁ : Ledger)
    → HasDistinctHashes txs
    → AreNew l.0 txs
    → apply_txs true height txs l ≡ some l₁
    → undo_txs true txs l₁ ≡ some l
unfolding undo_txs undo_tx
undo-apply_block height [] l l₁ d n e = unfold apply_txs in cc
undo-apply_block height (tx ∷ txs) l l₁ d n e = rw (
  undo-apply height txs (make tx height l) l₁ d.1 (AreNew-make tx height l.0 txs d.0 n.1)
      (sym (apply_txs-first height tx txs l) ∙ e),
  remove-AgreeBut tx l.0 (make_coins tx height l.0) n.0 (make-AgreeBut tx height l.0),
)
