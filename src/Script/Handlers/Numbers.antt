-- ===== src/Script/Handlers/Numbers.antt =====
-- lib/script/script.js: the results of the opcodes on two numbers.
use litedoge_js.Prelude.{
  ℕ, suc, ltb, length, if◌then◌else◌, ◌≡◌, ◌≢◌, ◌⊎◌, inl, inr, refl, ◌∙◌, Bool, true, false, not,
  ◌&&◌, ◌||◌, Bool-cases, [], ◌∷◌, arith,
}
use litedoge_js.Prelude.Int.{ℤ, pos, ◌+ℤ◌, ◌-ℤ◌, ◌≤ℤ◌, ltb_ℤ, eq_of_parts}
use litedoge_js.Script.Result.{Result, ok, error, numequalverify}
use litedoge_js.Script.Code
use litedoge_js.Script.Num.{encode}
use litedoge_js.Script.Num.Roundtrip.{Fits}
use litedoge_js.Script.Handlers.Arith.{of_bool, is_zero, eq_ℤ, binary, binary_op}
use litedoge_js.Script.Stack.{Stack, get, pop, push, push_int, get_bool, to_bool}
use litedoge_js.Script.Handlers.Laws.{get_num-encode, get_num-encode₂}

-- The Boolean tells whether `p` holds.
abbrev Decides : Type 0 → Bool → Type 0
Decides p b = (p × (b ≡ true)) ⊎ ((p → ⊥) × (b ≡ false))

-- The result leaves the truth value of `p` on the stack: the byte 1, or no byte.
abbrev pub Tells : Type 0 → Stack → Result Stack → Type 0
Tells p st r = (p × (r ≡ ok ((1 ∷ []) ∷ st))) ⊎ ((p → ⊥) × (r ≡ ok ([] ∷ st)))

abbrev pub IsLess : ℤ → ℤ → Type 0
IsLess a b = (a ≤ℤ b) × (a ≢ b)

eq_ℤ-Decides : (a b : ℤ) → Decides (a ≡ b) (eq_ℤ a b)
eq_ℤ-Decides a b = elim (Bool-cases (eq_ℤ a b)) [
  | inl e ↦ inl (eq_of_parts a b (ground arith), e)
  | inr e ↦ inr ((λ h. ground arith), e)
]

is_zero-Decides : (a : ℤ) → Decides (a ≡ pos 0) (is_zero a)
is_zero-Decides a = elim (Bool-cases (is_zero a)) [
  | inl e ↦ inl (eq_of_parts a (pos 0) (ground arith), e)
  | inr e ↦ inr ((λ h. ground arith), e)
]

ltb_ℤ-Decides : (a b : ℤ) → Decides (IsLess a b) (ltb_ℤ a b)
ltb_ℤ-Decides a b = elim (Bool-cases (ltb_ℤ a b)) [
  | inl e ↦ inl ((ground arith, (λ h. ground arith)), e)
  | inr e ↦ inr ((λ h. h.1 (eq_of_parts a b (ground arith))), e)
]

leb_ℤ-Decides : (a b : ℤ) → Decides (a ≤ℤ b) (not (ltb_ℤ b a))
leb_ℤ-Decides a b = elim (Bool-cases (ltb_ℤ b a)) [
  | inl e ↦ inr ((λ h. ground arith), rw e refl)
  | inr e ↦ inl (ground arith, rw e refl)
]

not-Decides : (p : Type 0) (b : Bool) → Decides p b → Decides (p → ⊥) (not b)
not-Decides p b (inl (h, e)) = inr ((λ k. k h), rw e refl)
not-Decides p b (inr (h, e)) = inl (h, rw e refl)

and-Decides : (p q : Type 0) (a b : Bool) → Decides p a → Decides q b → Decides (p × q) (a && b)
and-Decides p q a b (inl (h, e)) (inl (k, f)) = inl ((h, k), rw (e, f) refl)
and-Decides p q a b (inl (h, e)) (inr (k, f)) = inr ((λ x. k x.1), rw (e, f) refl)
and-Decides p q a b (inr (h, e)) d = inr ((λ x. h x.0), rw e refl)

or-Decides : (p q : Type 0) (a b : Bool) → Decides p a → Decides q b → Decides (p ⊎ q) (a || b)
or-Decides p q a b (inl (h, e)) d = inl (inl h, rw e refl)
or-Decides p q a b (inr (h, e)) (inl (k, f)) = inl (inr k, rw (e, f) refl)
or-Decides p q a b (inr (h, e)) (inr (k, f)) =
    inr ((λ x. elim x [ inl y ↦ h y | inr y ↦ k y ]), rw (e, f) refl)

-- What is on the stack after a comparison.
tells :
    (p : Type 0) (b : Bool) (n : ℤ) (st : Stack) (r : Result Stack)
    → Decides p b
    → of_bool b ≡ n
    → r ≡ ok (encode n ∷ st)
    → Tells p st r
unfolding encode
tells p b n st r (inl (h, e)) f q = inl (h, ground arith)
tells p b n st r (inr (h, e)) f q = inr (h, ground arith)

-- The lesser or the greater of two numbers.
abbrev pub IsLeast : ℤ → ℤ → ℤ → Type 0
IsLeast a b r = (r ≤ℤ a) × (r ≤ℤ b) × ((r ≡ a) ⊎ (r ≡ b))

abbrev pub IsGreatest : ℤ → ℤ → ℤ → Type 0
IsGreatest a b r = (a ≤ℤ r) × (b ≤ℤ r) × ((r ≡ a) ⊎ (r ≡ b))

binary-min : (a b : ℤ) → IsLeast a b (binary Code.op_min a b)
unfolding binary
binary-min a b = elim (Bool-cases (ltb_ℤ a b)) [
  | inl e ↦ rw e (ground arith, ground arith, inl refl)
  | inr e ↦ rw e (ground arith, ground arith, inr refl)
]

binary-max : (a b : ℤ) → IsGreatest a b (binary Code.op_max a b)
unfolding binary
binary-max a b = elim (Bool-cases (ltb_ℤ b a)) [
  | inl e ↦ rw e (ground arith, ground arith, inl refl)
  | inr e ↦ rw e (ground arith, ground arith, inr refl)
]

module _ (minimal : Bool) (a b : ℤ) (st : Stack) (fits_a : Fits 3 a) (fits_b : Fits 3 b) where
  binary_op_lem :
      (v : ℕ)
      → v ≢ Code.op_numequalverify
      → binary_op minimal v (encode b ∷ encode a ∷ st) ≡ ok (encode (binary v a b) ∷ st)
  unfolding binary_op push_int pop push
  binary_op_lem v n =
      rw
        (
          get_num-encode₂ a minimal (encode b) st fits_a,
          get_num-encode b minimal (encode a ∷ st) fits_b,
        )
        (ground arith)

  verify_lem :
      binary_op minimal Code.op_numequalverify (encode b ∷ encode a ∷ st)
      ≡ (if eq_ℤ a b then ok st else error numequalverify)
  unfolding binary_op push_int pop push binary to_bool
  verify_lem =
      let enough : ltb (suc (suc (length st))) 2 ≡ false = ground arith in
      rw
        (
          get_num-encode₂ a minimal (encode b) st fits_a,
          get_num-encode b minimal (encode a ∷ st) fits_b,
        )
        (elim (Bool-cases (eq_ℤ a b)) [
          | inl e ↦ rw (enough, e) (unfold encode get_bool get in refl)
          | inr e ↦ rw (enough, e) (unfold encode get_bool get in refl)
        ])

  -- Where the opcode's number is a truth value.
  op-Tells :
      (p : Type 0) (t : Bool) (v : ℕ)
      → Decides p t
      → of_bool t ≡ binary v a b
      → v ≢ Code.op_numequalverify
      → Tells p st (binary_op minimal v (encode b ∷ encode a ∷ st))
  op-Tells p t v d e n = tells p t (binary v a b) st _ d e (binary_op_lem v n)

  verifies :
      let r = binary_op minimal Code.op_numequalverify (encode b ∷ encode a ∷ st) in
      ((a ≡ b) × (r ≡ ok st)) ⊎ ((a ≢ b) × (r ≡ error numequalverify))
  verifies = elim (eq_ℤ-Decides a b) [
    | inl (h, e) ↦ inl (h, verify_lem ∙ rw e refl)
    | inr (h, e) ↦ inr (h, verify_lem ∙ rw e refl)
  ]

-- On the encodings of two numbers of magnitude below 2^31, the opcodes on two numbers leave in their
-- place: OP_ADD the sum; OP_SUB the first less the second, which is on top; OP_BOOLAND and
-- OP_BOOLOR whether both and whether one of them is not 0; OP_NUMEQUAL and OP_NUMNOTEQUAL whether
-- they are and are not equal; the four comparisons whether the first is less, greater, at most and
-- at least the second; OP_MIN and OP_MAX the lesser and the greater. OP_NUMEQUALVERIFY takes both
-- away where they are equal, and is an error elsewhere.
pub binary_op-encode :
    (minimal : Bool) (a b : ℤ) (st : Stack)
    → Fits 3 a
    → Fits 3 b
    → let run = λ (v : ℕ). binary_op minimal v (encode b ∷ encode a ∷ st) in
      (run Code.op_add ≡ ok (encode (a +ℤ b) ∷ st))
      × (run Code.op_sub ≡ ok (encode (a -ℤ b) ∷ st))
      × Tells ((a ≢ pos 0) × (b ≢ pos 0)) st (run Code.op_booland)
      × Tells ((a ≢ pos 0) ⊎ (b ≢ pos 0)) st (run Code.op_boolor)
      × Tells (a ≡ b) st (run Code.op_numequal)
      × Tells (a ≢ b) st (run Code.op_numnotequal)
      × Tells (IsLess a b) st (run Code.op_lessthan)
      × Tells (IsLess b a) st (run Code.op_greaterthan)
      × Tells (a ≤ℤ b) st (run Code.op_lessthanorequal)
      × Tells (b ≤ℤ a) st (run Code.op_greaterthanorequal)
      × ((r : ℤ) × IsLeast a b r × (run Code.op_min ≡ ok (encode r ∷ st)))
      × ((r : ℤ) × IsGreatest a b r × (run Code.op_max ≡ ok (encode r ∷ st)))
      × (((a ≡ b) × (run Code.op_numequalverify ≡ ok st))
          ⊎ ((a ≢ b) × (run Code.op_numequalverify ≡ error numequalverify)))
unfolding binary
binary_op-encode minimal a b st fa fb =
    let nz_a = not-Decides _ _ (is_zero-Decides a) in
    let nz_b = not-Decides _ _ (is_zero-Decides b) in
    let eq = eq_ℤ-Decides a b in
    let run = binary_op_lem minimal a b st fa fb in
    (
      run Code.op_add (omega arith),
      run Code.op_sub (omega arith),
      op-Tells minimal a b st fa fb _ _ Code.op_booland (and-Decides _ _ _ _ nz_a nz_b) refl
          (omega arith),
      op-Tells minimal a b st fa fb _ _ Code.op_boolor (or-Decides _ _ _ _ nz_a nz_b) refl
          (omega arith),
      op-Tells minimal a b st fa fb _ _ Code.op_numequal eq refl (omega arith),
      op-Tells minimal a b st fa fb _ _ Code.op_numnotequal (not-Decides _ _ eq) refl (omega arith),
      op-Tells minimal a b st fa fb _ _ Code.op_lessthan (ltb_ℤ-Decides a b) refl (omega arith),
      op-Tells minimal a b st fa fb _ _ Code.op_greaterthan (ltb_ℤ-Decides b a) refl (omega arith),
      op-Tells minimal a b st fa fb _ _ Code.op_lessthanorequal (leb_ℤ-Decides a b) refl
          (omega arith),
      op-Tells minimal a b st fa fb _ _ Code.op_greaterthanorequal (leb_ℤ-Decides b a) refl
          (omega arith),
      (binary Code.op_min a b, binary-min a b, run Code.op_min (omega arith)),
      (binary Code.op_max a b, binary-max a b, run Code.op_max (omega arith)),
      verifies minimal a b st fa fb,
    )
