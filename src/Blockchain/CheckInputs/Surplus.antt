-- ===== src/Blockchain/CheckInputs/Surplus.antt =====
-- lib/primitives/tx.js: the fee that `checkInputs` answers, as what the inputs are worth beyond the
-- outputs.
use litedoge_js.Prelude.{
  ℕ, ◌+◌, ◌≡◌, ◌∙◌, refl, sym, subst, true, inl, inr, Bool-cases, if◌then◌else◌,
}
use litedoge_js.Prelude.{arith}
use litedoge_js.Prelude.Int.{ℤ, pos, ◌+ℤ◌, ◌-ℤ◌, ◌≤ℤ◌, +ℤ-zero, eq_of_parts, int_laws}
use litedoge_js.Primitives.Tx.{Tx, is_coinstake}
use litedoge_js.Coins.View.{View}
use litedoge_js.Blockchain.Block.{prevouts, get_output_value}
use litedoge_js.Blockchain.CheckInputs.{Checked, valid, rejected, sum_inputs, check_inputs, fee_of}
use litedoge_js.Blockchain.CheckInputs.Valid.{input_value, Total-cases, check_inputs-valid}

-- What the inputs of a transaction are worth beyond its outputs: nothing is counted for a coinstake,
-- and nothing for a transaction that `checkInputs` refuses.
abbrev pub surplus_of : Checked → Tx → View → ℤ
surplus_of (rejected r) tx v = pos 0
surplus_of (valid fee) tx v =
    if is_coinstake tx then pos 0 else input_value (prevouts tx) v -ℤ get_output_value tx

abbrev pub refusals_of : Checked → ℕ
refusals_of (valid fee) = 0
refusals_of (rejected r) = 1

coinstake_fee :
    (tx : Tx) (v : View) (height min_fee : ℕ) (fee : ℤ)
    → check_inputs tx v height min_fee ≡ valid fee
    → is_coinstake tx ≡ true
    → fee ≡ pos 0
unfolding check_inputs
coinstake_fee tx v height min_fee fee e s =
    elim (Total-cases (sum_inputs (prevouts tx) v height (pos 0))) [
      | inl (r, t) ↦ absurd (ground arith)
      | inr (sum, t) ↦ ground arith
    ]

fee_of-valid : (x : ℤ) → fee_of (valid x) +ℤ pos 0 ≡ x
unfolding fee_of
fee_of-valid x = +ℤ-zero x

fee_of_parts : (x w y : ℤ) (f : ℕ) → x ≡ pos f → w ≡ y +ℤ pos f → x ≡ w -ℤ y
fee_of_parts x w y f p q = rw (p, q) (eq_of_parts (pos f) (y +ℤ pos f -ℤ y) (omega int_laws))

pub fee_of-surplus_of :
    (tx : Tx) (v : View) (height min_fee : ℕ) (k : Checked)
    → check_inputs tx v height min_fee ≡ k
    → fee_of k +ℤ pos (refusals_of k) ≡ surplus_of k tx v
fee_of-surplus_of tx v height min_fee (rejected r) e = unfold fee_of ◌+ℤ◌ in refl
fee_of-surplus_of tx v height min_fee (valid fee) e = elim (Bool-cases (is_coinstake tx)) [
  | inl y ↦
      let none : fee ≡ pos 0 = coinstake_fee tx v height min_fee fee e y in
      rw (y, none) (unfold fee_of ◌+ℤ◌ in refl)
  | inr n ↦
      let (all, bound, (f, is_fee, split, low, high)) =
        check_inputs-valid tx v height min_fee fee e n in
      let value = get_output_value tx in
      let worth = input_value (prevouts tx) v in
      rw n (fee_of-valid fee ∙ fee_of_parts fee worth value f is_fee split)
]

pub add_pairs :
    (a b : ℤ) (m n : ℕ) (x y : ℤ) → a +ℤ pos m ≡ x → b +ℤ pos n ≡ y → a +ℤ b +ℤ pos (m + n) ≡ x +ℤ y
add_pairs a b m n x y p q =
    rw (sym p, sym q)
      (eq_of_parts (a +ℤ b +ℤ pos (m + n)) (a +ℤ pos m +ℤ (b +ℤ pos n)) (omega int_laws))

pub at_most_surplus :
    (claim fees surplus : ℤ) (n r : ℕ)
    → claim ≤ℤ fees +ℤ pos r
    → fees +ℤ pos n ≡ surplus
    → claim +ℤ pos n ≤ℤ surplus +ℤ pos r
at_most_surplus claim fees surplus n r h e =
    subst (λ x. claim +ℤ pos n ≤ℤ x +ℤ pos r) e (omega int_laws)
