-- ===== src/Blockchain/CheckInputs/Valid.antt =====
-- What `checkInputs` establishes where it answers valid.
use litedoge_js.Prelude.{
  ℕ, ◌≤◌, ◌≢◌, ◌≡◌, ◌⊎◌, ◌∙◌, refl, sym, ap, subst, false, none, some, List, [], ◌∷◌,
}
use litedoge_js.Prelude.{arith, All, Option-cases, inl, inr}
use litedoge_js.Prelude.Int.{
  ℤ, pos, pos_part, ◌+ℤ◌, ◌-ℤ◌, ◌≤ℤ◌, +ℤ_parts, -ℤ_parts, eq_of_parts, +ℤ_assoc, +ℤ-zero, zero-+ℤ,
}
use litedoge_js.Primitives.Tx.{Outpoint, Tx, is_coinstake}
use litedoge_js.Protocol.Consensus.{max_money}
use litedoge_js.Coins.Entry.{CoinEntry}
use litedoge_js.Coins.View.{View, get_entry}
use litedoge_js.Blockchain.Block.{prevouts, get_output_value}
use litedoge_js.Blockchain.CheckInputs.{
  Reason, valid, Total, total, refused, sum_inputs, is_immature, check_fee, check_inputs,
}

-- The value of the coins that a view has for a list of outpoints.
pub input_value : List Outpoint → View → ℤ
input_value [] v = pos 0
input_value (p ∷ ps) v =
    elim (get_entry p v) [ none ↦ pos 0 | some e ↦ e.output.value ] +ℤ input_value ps v

-- No coin of a coinbase or of a coinstake, or a hundred blocks deep.
abbrev pub IsMature : ℕ → CoinEntry → Type 0
IsMature height e =
    ((e.coinbase ≡ false) × (e.coinstake ≡ false)) ⊎ (e.height +ℤ pos 100 ≤ℤ pos height)

-- The view has the coin, it is mature, and its value is in range.
abbrev pub IsSpendable : View → ℕ → Outpoint → Type 0
IsSpendable v height p =
    (e : CoinEntry) × (get_entry p v ≡ some e)
    × IsMature height e
    × (pos 0 ≤ℤ e.output.value)
    × (e.output.value ≤ℤ pos max_money)

is_immature-IsMature :
    (e : CoinEntry) (height : ℕ) → is_immature e height ≡ false → IsMature height e
unfolding is_immature
is_immature-IsMature e height h =
    ground (arith, -ℤ_parts (pos height) e.height, +ℤ_parts e.height (pos 100))

sum_missing :
    (p : Outpoint) (ps : List Outpoint) (v : View) (height : ℕ) (acc s : ℤ)
    → get_entry p v ≡ none
    → sum_inputs (p ∷ ps) v height acc ≢ total s
unfolding sum_inputs
sum_missing p ps v height acc s n = ground arith

sum_step :
    (p : Outpoint) (ps : List Outpoint) (v : View) (height : ℕ) (acc s : ℤ) (x : CoinEntry)
    → get_entry p v ≡ some x
    → sum_inputs (p ∷ ps) v height acc ≡ total s
    → (is_immature x height ≡ false)
      × (pos 0 ≤ℤ x.output.value)
      × (x.output.value ≤ℤ pos max_money)
      × (acc +ℤ x.output.value ≤ℤ pos max_money)
      × (sum_inputs ps v height (acc +ℤ x.output.value) ≡ total s)
unfolding sum_inputs
sum_step p ps v height acc s x g e =
    (ground arith, ground arith, ground arith, ground arith, ground arith)

input_value-some :
    (p : Outpoint) (ps : List Outpoint) (v : View) (x : CoinEntry)
    → get_entry p v ≡ some x
    → input_value (p ∷ ps) v ≡ x.output.value +ℤ input_value ps v
unfolding input_value
input_value-some p ps v x g = rw g refl

sum_inputs-total :
    (ps : List Outpoint) (v : View) (height : ℕ) (acc s : ℤ)
    → sum_inputs ps v height acc ≡ total s
    → acc ≤ℤ pos max_money
    → All (IsSpendable v height) ps × (s ≡ acc +ℤ input_value ps v) × (s ≤ℤ pos max_money)
unfolding sum_inputs input_value
sum_inputs-total [] v height acc s e h = rw +ℤ-zero (tt, cc e, ground arith)
sum_inputs-total (p ∷ ps) v height acc s e h = elim (Option-cases (get_entry p v)) [
  | inl n ↦ absurd (sum_missing p ps v height acc s n e)
  | inr (x, g) ↦
      let (young, low, value, room, rest) = sum_step p ps v height acc s x g e in
      let (all, sum, bound) = sum_inputs-total ps v height (acc +ℤ x.output.value) s rest room in
      (
        ((x, g, is_immature-IsMature x height young, low, value), all),
        sum
            ∙ +ℤ_assoc acc x.output.value (input_value ps v)
            ∙ ap (λ y. acc +ℤ y) (sym (input_value-some p ps v x g)),
        bound,
      )
]

check_fee-valid :
    (min_fee : ℕ) (sum value fee : ℤ)
    → check_fee min_fee sum value ≡ valid fee
    → (f : ℕ) × (fee ≡ pos f) × (sum ≡ value +ℤ pos f) × (min_fee ≤ f) × (f ≤ max_money)
unfolding check_fee
check_fee-valid min_fee sum value fee e =
    let parts = -ℤ_parts sum value in
    let is_fee : sum -ℤ value ≡ fee = ground arith in
    let low : pos min_fee ≤ℤ sum -ℤ value = ground arith in
    let high : sum -ℤ value ≤ℤ pos max_money = ground arith in
    let f = pos_part (sum -ℤ value) in
    let same : sum -ℤ value ≡ pos f = ground arith in
    (
      f,
      sym is_fee ∙ same,
      eq_of_parts sum (value +ℤ pos f) (ground (arith, +ℤ_parts value (pos f))),
      ground arith,
      ground arith,
    )

pub Total-cases : (t : Total) → ((r : Reason) × (t ≡ refused r)) ⊎ ((s : ℤ) × (t ≡ total s))
Total-cases (total s) = inr (s, refl)
Total-cases (refused r) = inl (r, refl)

check_inputs_parts :
    (tx : Tx) (v : View) (height min_fee : ℕ) (fee : ℤ)
    → check_inputs tx v height min_fee ≡ valid fee
    → is_coinstake tx ≡ false
    → (s : ℤ) × (sum_inputs (prevouts tx) v height (pos 0) ≡ total s)
      × (check_fee min_fee s (get_output_value tx) ≡ valid fee)
unfolding check_inputs
check_inputs_parts tx v height min_fee fee e n =
    elim (Total-cases (sum_inputs (prevouts tx) v height (pos 0))) [
      | inl (r, t) ↦ absurd (ground arith)
      | inr (s, t) ↦ (s, t, ground arith)
    ]

-- Where `checkInputs` answers valid for a transaction that is no coinstake, the view has a coin for
-- each input, which is worth 0 to MAX_MONEY and, if a coinbase or a coinstake made it, a hundred
-- blocks deep at least; together the coins are worth at most MAX_MONEY, and as much as the outputs
-- and the fee; the fee is at least the minimum and at most MAX_MONEY.
pub check_inputs-valid :
    (tx : Tx) (v : View) (height min_fee : ℕ) (fee : ℤ)
    → check_inputs tx v height min_fee ≡ valid fee
    → is_coinstake tx ≡ false
    → All (IsSpendable v height) (prevouts tx)
      × (input_value (prevouts tx) v ≤ℤ pos max_money)
      × ((f : ℕ) × (fee ≡ pos f)
          × (input_value (prevouts tx) v ≡ get_output_value tx +ℤ pos f)
          × (min_fee ≤ f)
          × (f ≤ max_money))
check_inputs-valid tx v height min_fee fee e n =
    let (s, summed, checked) = check_inputs_parts tx v height min_fee fee e n in
    let (all, sum, bound) =
      sum_inputs-total (prevouts tx) v height (pos 0) s summed (omega arith) in
    let (f, is_fee, split, low, high) =
      check_fee-valid min_fee s (get_output_value tx) fee checked in
    let worth = sum ∙ zero-+ℤ (input_value (prevouts tx) v) in
    (all, subst (λ x. x ≤ℤ pos max_money) worth bound, (f, is_fee, sym worth ∙ split, low, high))
