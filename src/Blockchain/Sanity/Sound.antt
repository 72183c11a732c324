-- ===== src/Blockchain/Sanity/Sound.antt =====
-- What the sanity check of a transaction establishes.
use litedoge_js.Prelude.{
  ℕ, ◌≤◌, ◌≡◌, ◌↔◌, ◌⊎◌, refl, sym, subst, Bool, true, false, not, ◌&&◌, ◌||◌, List, [], ◌∷◌, arith,
  length, All, Bool-cases, inl, inr,
}
use litedoge_js.Prelude.Int.{ℤ, pos, ◌+ℤ◌, ◌≤ℤ◌, int_laws, +ℤ_parts, +ℤ_assoc, zero-+ℤ}
use litedoge_js.Primitives.Tx.{Outpoint, Output, Tx, is_null, is_empty, is_coinbase, is_coinstake}
use litedoge_js.Protocol.Consensus.{max_money}
use litedoge_js.Coins.Spend.Refine.{Distinct}
use litedoge_js.Blockchain.Block.{prevouts, get_output_value, sum_values}
use litedoge_js.Blockchain.Sanity.Duplicates.{check_duplicates-sane}
use litedoge_js.Blockchain.Sanity.{
  Sanity, sane, insane, and_then, check_outputs, check_duplicates, check_nulls, check_prevouts,
  check_sanity, first_script_length, max_block_size,
}

and_then-sane : (s t : Sanity) → (and_then s t ≡ sane) ↔ ((s ≡ sane) × (t ≡ sane))
and_then-sane sane t = ((λ e. (refl, e)), (λ p. p.1))
and_then-sane (insane r) t = ((λ e. absurd (cc e)), (λ p. absurd (cc p.0)))

-- No output is worth less than nothing.
abbrev pub HasNoDebt : List Output → Type 0
HasNoDebt os = All (λ (o : Output). pos 0 ≤ℤ o.value) os

-- Only a coinbase or a coinstake has an empty output.
abbrev pub HasEmpty : Bool → List Output → Type 0
HasEmpty may os = All (λ (o : Output). (is_empty o && not may) ≡ false) os

sum_values-HasNoDebt : (os : List Output) → HasNoDebt os → pos 0 ≤ℤ sum_values os
unfolding sum_values
sum_values-HasNoDebt [] h = omega arith
sum_values-HasNoDebt (o ∷ os) (h, hs) =
    omega (arith, +ℤ_parts o.value (sum_values os), sum_values-HasNoDebt os hs, h)

sum_values_step :
    (total : ℤ) (o : Output) (os : List Output)
    → total +ℤ o.value +ℤ sum_values os ≡ total +ℤ sum_values (o ∷ os)
unfolding sum_values
sum_values_step total o os = +ℤ_assoc total o.value (sum_values os)

outputs_step :
    (may : Bool) (o : Output) (os : List Output) (total : ℤ)
    → pos 0 ≤ℤ total
    → (check_outputs may (o ∷ os) total ≡ sane) ↔ (
        ((is_empty o && not may) ≡ false)
        × (pos 0 ≤ℤ o.value)
        × (pos 0 ≤ℤ total +ℤ o.value)
        × (total +ℤ o.value ≤ℤ pos max_money)
        × (check_outputs may os (total +ℤ o.value) ≡ sane))
unfolding check_outputs
outputs_step may o os total lo = (
  (λ e. (ground arith, ground arith, ground arith, ground arith, ground arith)),
  (λ h. ground (arith, +ℤ_parts total o.value)),
)

check_outputs-sane :
    (may : Bool) (os : List Output) (total : ℤ)
    → pos 0 ≤ℤ total
    → total ≤ℤ pos max_money
    → (check_outputs may os total ≡ sane)
      ↔ (HasEmpty may os × HasNoDebt os × (total +ℤ sum_values os ≤ℤ pos max_money))
check_outputs-sane may [] total lo hi = (
  (λ e. (tt, tt, unfold sum_values in omega (int_laws, hi))),
  (λ p. unfold check_outputs in refl),
)
check_outputs-sane may (o ∷ os) total lo hi =
    let (split, join) = outputs_step may o os total lo in
    let value = o.value in
    let here = +ℤ_parts total value in
    let whole = sum_values_step total o os in
    (
      (λ e.
          let (em, debt, low, room, r) = split e in
          let (ems, debts, bound) = (check_outputs-sane may os (total +ℤ value) low room).0 r in
          ((em, ems), (debt, debts), subst (λ x. x ≤ℤ pos max_money) whole bound)),
      (λ h.
          let ((em, ems), (debt, debts), bound) = h in
          let low : pos 0 ≤ℤ total +ℤ value = omega (arith, here, lo, debt) in
          let bound' = subst (λ x. x ≤ℤ pos max_money) (sym whole) bound in
          let rest = sum_values-HasNoDebt os debts in
          let room : total +ℤ value ≤ℤ pos max_money =
            omega (arith, +ℤ_parts (total +ℤ value) (sum_values os), bound', rest) in
          join (
            em,
            debt,
            low,
            room,
            (check_outputs-sane may os (total +ℤ value) low room).1 (ems, debts, bound'),
          )),
    )

check_nulls-sane :
    (ps : List Outpoint) → (check_nulls ps ≡ sane) ↔ All (λ (p : Outpoint). is_null p ≡ false) ps
unfolding check_nulls
check_nulls-sane [] = ((λ e. tt), (λ h. refl))
check_nulls-sane (p ∷ ps) =
    let (to, from) = check_nulls-sane ps in
    ((λ e. (ground arith, to (ground arith))), (λ h. let rest = from h.1 in ground arith))

-- The script of a coinbase has 2 to 100 bytes; no other transaction names the null outpoint.
abbrev pub HasGoodPrevouts : Tx → Type 0
HasGoodPrevouts tx =
    ((is_coinbase tx ≡ true)
      × (2 ≤ first_script_length tx.inputs)
      × (first_script_length tx.inputs ≤ 100))
    ⊎ ((is_coinbase tx ≡ false) × All (λ (p : Outpoint). is_null p ≡ false) (prevouts tx))

check_prevouts-sane : (tx : Tx) → (check_prevouts tx ≡ sane) ↔ HasGoodPrevouts tx
unfolding check_prevouts
check_prevouts-sane tx =
    let (to, from) = check_nulls-sane (prevouts tx) in
    (
      (λ e. elim (Bool-cases (is_coinbase tx)) [
        | inl c ↦ inl (c, ground arith, ground arith)
        | inr c ↦ inr (c, to (ground arith))
      ]),
      (λ h. elim h [
        | inl (c, lo, hi) ↦ ground arith
        | inr (c, a) ↦ let k = from a in ground arith
      ]),
    )

abbrev pub IsSane : ℕ → Tx → Type 0
IsSane size tx =
    (1 ≤ length tx.inputs)
    × (1 ≤ length tx.outputs)
    × (size ≤ max_block_size)
    × HasEmpty (is_coinbase tx || is_coinstake tx) tx.outputs
    × HasNoDebt tx.outputs
    × (get_output_value tx ≤ℤ pos max_money)
    × Distinct (prevouts tx)
    × HasGoodPrevouts tx

sanity_step :
    (size : ℕ) (tx : Tx)
    → (check_sanity size tx ≡ sane) ↔ (
        (1 ≤ length tx.inputs)
        × (1 ≤ length tx.outputs)
        × (size ≤ max_block_size)
        × (and_then
              (check_outputs (is_coinbase tx || is_coinstake tx) tx.outputs (pos 0))
              (and_then (check_duplicates [] (prevouts tx)) (check_prevouts tx))
            ≡ sane))
unfolding check_sanity
sanity_step size tx =
    ((λ e. (ground arith, ground arith, ground arith, ground arith)), (λ h. ground arith))

pub check_sanity-IsSane : (size : ℕ) (tx : Tx) → (check_sanity size tx ≡ sane) ↔ IsSane size tx
check_sanity-IsSane size tx =
    let may = is_coinbase tx || is_coinstake tx in
    let zero = zero-+ℤ (sum_values tx.outputs) in
    let (split, join) = sanity_step size tx in
    let (outs, outs') = check_outputs-sane may tx.outputs (pos 0) (omega arith) (omega arith) in
    let (dups, dups') = check_duplicates-sane (prevouts tx) [] in
    let (pres, pres') = check_prevouts-sane tx in
    let (first, first') = and_then-sane (check_outputs may tx.outputs (pos 0)) _ in
    let (second, second') = and_then-sane (check_duplicates [] (prevouts tx)) (check_prevouts tx) in
    (
      (λ e.
          let (a, b, c, r) = split e in
          let (o, r') = first r in
          let (d, q) = second r' in
          let (em, nd, v) = outs o in
          (
            a,
            b,
            c,
            em,
            nd,
            unfold get_output_value in subst (λ x. x ≤ℤ pos max_money) zero v,
            (dups d).1,
            pres q,
          )),
      (λ h.
          let (a, b, c, em, nd, v, d, q) = h in
          let total : pos 0 +ℤ sum_values tx.outputs ≤ℤ pos max_money =
            unfold get_output_value in subst (λ x. x ≤ℤ pos max_money) (sym zero) v in
          join (a, b, c, first' (outs' (em, nd, total), second' (dups' (tt, d), pres' q)))),
    )
