-- ===== src/Blockchain/Sanity/Final.antt =====
-- lib/primitives/tx.js: what `isFinal` answers.
use litedoge_js.Prelude.{
  ℕ, ◌≤◌, ◌<◌, ◌≡◌, ◌↔◌, ◌⊎◌, refl, true, List, [], ◌∷◌, arith, All, inl, inr,
}
use litedoge_js.Primitives.Tx.{Input, Tx}
use litedoge_js.Blockchain.Sanity.{sequences_final, is_final}

-- The lock time of a transaction has passed: there is none, it is a height below 500000000 and below
-- the block's, it is a time below the block's, or each input's sequence is the last one.
pub data IsFinal : ℕ → ℕ → Tx → Type 0 where
  no_locktime : {height time : ℕ} {tx : Tx} → tx.locktime ≡ 0 → IsFinal height time tx
  height_passed :
      {height time : ℕ} {tx : Tx}
      → tx.locktime < 500_000_000
      → tx.locktime < height
      → IsFinal height time tx
  time_passed :
      {height time : ℕ} {tx : Tx}
      → 500_000_000 ≤ tx.locktime
      → tx.locktime < time
      → IsFinal height time tx
  disabled :
      {height time : ℕ} {tx : Tx}
      → All (λ (i : Input). i.sequence ≡ 0xffff_ffff) tx.inputs
      → IsFinal height time tx

sequences_final-All :
    (is : List Input)
    → (sequences_final is ≡ true) ↔ All (λ (i : Input). i.sequence ≡ 0xffff_ffff) is
unfolding sequences_final
sequences_final-All [] = ((λ e. tt), (λ h. refl))
sequences_final-All (i ∷ is) =
    let (to, from) = sequences_final-All is in
    ((λ e. (ground arith, to (ground arith))), (λ h. let rest = from h.1 in ground arith))

is_final_cases :
    (tx : Tx) (height time : ℕ)
    → is_final tx height time ≡ true
    → (tx.locktime ≡ 0)
      ⊎ ((tx.locktime < 500_000_000) × (tx.locktime < height))
      ⊎ ((500_000_000 ≤ tx.locktime) × (tx.locktime < time))
      ⊎ (sequences_final tx.inputs ≡ true)
unfolding is_final
is_final_cases tx height time e = ground arith

is_final-true :
    (tx : Tx) (height time : ℕ)
    → (tx.locktime ≡ 0)
      ⊎ ((tx.locktime < 500_000_000) × (tx.locktime < height))
      ⊎ ((500_000_000 ≤ tx.locktime) × (tx.locktime < time))
      ⊎ (sequences_final tx.inputs ≡ true)
    → is_final tx height time ≡ true
unfolding is_final
is_final-true tx height time h = ground arith

pub is_final-IsFinal :
    (height time : ℕ) (tx : Tx) → (is_final tx height time ≡ true) ↔ IsFinal height time tx
is_final-IsFinal height time tx = (
  (λ e. elim (is_final_cases tx height time e) [
    | inl z ↦ no_locktime z
    | inr (inl (b, h)) ↦ height_passed b h
    | inr (inr (inl (b, h))) ↦ time_passed b h
    | inr (inr (inr s)) ↦ disabled ((sequences_final-All tx.inputs).0 s)
  ]),
  (λ h. elim h [
    | no_locktime z ↦ is_final-true tx height time (inl z)
    | height_passed b h ↦ is_final-true tx height time (inr (inl (b, h)))
    | time_passed b h ↦ is_final-true tx height time (inr (inr (inl (b, h))))
    | disabled s ↦
        is_final-true tx height time (inr (inr (inr ((sequences_final-All tx.inputs).1 s))))
  ]),
)
