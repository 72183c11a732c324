-- ===== src/Script/Verify/Redeem.antt =====
-- Spending an output that pays to a script hash.
use litedoge_js.Prelude.{
  ℕ, ◌≡◌, refl, sym, ap, subst, ◌∙◌, Bool, true, false, none, some, List, [], ◌∷◌, arith, length,
  inl, inr,
}
use litedoge_js.Script.Code
use litedoge_js.Script.Result.{Bytes, ok, Result-cases}
use litedoge_js.Script.Op.{Op, op, eq_bytes, is_push_only}
use litedoge_js.Script.Bytes.{from_raw_script}
use litedoge_js.Script.Stack.{Stack, get_bool, push_bool, push_int, push, to_bool}
use litedoge_js.Script.Num.{encode, to_bytes, append_sign}
use litedoge_js.Script.Handlers.{Env}
use litedoge_js.Script.Handlers.Sigs.{hash}
use litedoge_js.Script.Handlers.Arith.{equal}
use litedoge_js.Script.Exec.{
  State, execute, start, step, run_op, switch, stack_op, push_data, check_stack_size,
}
use litedoge_js.Script.Exec.Bounds.{run-cons, run-nil}
use litedoge_js.Script.Exec.Final.{execute_parts}
use litedoge_js.Script.Verify.{Script, is_scripthash, check_true, execute_redeem, verify_script}

verify_parts :
    (e : Env) (input output : Script)
    → verify_script e input output ≡ ok tt
    → e.flags.p2sh ≡ true
    → is_scripthash output.raw ≡ true
    → (copy : Stack) × (st : Stack) × (st₁ : Stack) × (execute e (length input.raw) input.code []
        ≡ ok copy)
      × (execute e (length output.raw) output.code copy ≡ ok st)
      × (check_true st ≡ ok tt)
      × (execute_redeem e input copy ≡ ok st₁)
unfolding verify_script
verify_parts e input output h p s =
    elim (Result-cases (execute e (length input.raw) input.code [])) [
      | inr (x, q) ↦ ground arith
      | inl (copy, q) ↦ elim (Result-cases (execute e (length output.raw) output.code copy)) [
        | inr (x, q') ↦ ground arith
        | inl (st, q') ↦ elim (Result-cases (execute_redeem e input copy)) [
          | inr (x, r) ↦ ground arith
          | inl (st₁, r) ↦ (copy, st, st₁, q, q', ground arith, r)
        ]
      ]
    ]

-- The code of an output that pays to the script hash `h`.
abbrev pub scripthash_code : Bytes → List Op
scripthash_code h = op Code.op_hash160 none ∷ op 0x14 (some h) ∷ op Code.op_equal none ∷ []

-- A state of this script, where no branch is open.
abbrev at_ops : ℕ → Stack → State
at_ops n st = record (start st) { op_count = n }

step-hash160 :
    (e : Env) (code : List Op) (x : Bytes) (st : Stack) (t : State)
    → step e code 0 (op Code.op_hash160 none) (start (x ∷ st)) ≡ ok t
    → at_ops 1 (e.crypto.hash160 x ∷ st) ≡ t
unfolding step run_op switch stack_op hash check_stack_size
step-hash160 e code x st t k = ground arith

step-push :
    (e : Env) (code : List Op) (h : Bytes) (st : Stack) (t : State)
    → step e code 1 (op 0x14 (some h)) (at_ops 1 st) ≡ ok t
    → at_ops 1 (h ∷ st) ≡ t
unfolding step run_op push_data check_stack_size
step-push e code h st t k = ground arith

step-equal :
    (e : Env) (code : List Op) (h x : Bytes) (st : Stack) (t : State)
    → step e code 2 (op Code.op_equal none) (at_ops 1 (h ∷ x ∷ st)) ≡ ok t
    → at_ops 2 (push_bool (eq_bytes x h) st) ≡ t
unfolding step run_op switch stack_op equal check_stack_size
step-equal e code h x st t k = ground arith

run_scripthash :
    (e : Env) (n : ℕ) (h x : Bytes) (st st' : Stack)
    → execute e n (scripthash_code h) (x ∷ st) ≡ ok st'
    → push_bool (eq_bytes (e.crypto.hash160 x) h) st ≡ st'
run_scripthash e n h x st st' k =
    let code = scripthash_code h in
    let (s, r, small, closed, same) = execute_parts e n code (x ∷ st) st' _ refl k in
    let (s₁, k₁, r₁) = run-cons e code 0 _ _ (start (x ∷ st)) s r in
    let (s₂, k₂, r₂) = run-cons e code 1 _ _ s₁ s r₁ in
    let (s₃, k₃, r₃) = run-cons e code 2 _ _ s₂ s r₂ in
    let q₁ = step-hash160 e code x st s₁ k₁ in
    let q₂ =
      step-push e code h (e.crypto.hash160 x ∷ st) s₂
        (subst (λ (a : State). step e code 1 (op 0x14 (some h)) a ≡ ok s₂) (sym q₁) k₂) in
    let q₃ =
      step-equal e code h (e.crypto.hash160 x) st s₃
        (subst (λ (a : State). step e code 2 (op Code.op_equal none) a ≡ ok s₃) (sym q₂) k₃) in
    let end : s₃ ≡ s = run-nil e code 3 s₃ s r₃ in ap (λ (a : State). a.stack) (q₃ ∙ end) ∙ same

redeem_parts :
    (e : Env) (input : Script) (copy st₁ : Stack)
    → execute_redeem e input copy ≡ ok st₁
    → (raw : Bytes) × (rest : Stack) × (copy ≡ raw ∷ rest)
      × (is_push_only input.code ≡ true)
      × (execute e (length raw) (from_raw_script raw) rest ≡ ok st₁)
      × (check_true st₁ ≡ ok tt)
unfolding execute_redeem
redeem_parts e input [] st₁ k = ground arith
redeem_parts e input (raw ∷ rest) st₁ k =
    elim (Result-cases (execute e (length raw) (from_raw_script raw) rest)) [
      | inr (x, q) ↦ ground arith
      | inl (st, q) ↦ (raw, rest, refl, ground arith, ground arith, ground arith)
    ]

eq_bytes→eq : (a b : Bytes) → eq_bytes a b ≡ true → a ≡ b
eq_bytes→eq [] [] h = refl
eq_bytes→eq [] (c ∷ cs) h = cc h
eq_bytes→eq (b ∷ bs) [] h = cc h
eq_bytes→eq (b ∷ bs) (c ∷ cs) h =
    let head : b ≡ c = ground arith in
    let tail : eq_bytes bs cs ≡ true = ground arith in cc (head, eq_bytes→eq bs cs tail)

true_result : (b : Bool) (st : Stack) → check_true (push_bool b st) ≡ ok tt → b ≡ true
unfolding check_true push_bool get_bool push_int push encode to_bytes append_sign to_bool
true_result true st h = refl
true_result false st h = ground arith

-- Where script verification succeeds with P2SH for an output that is the code of a script hash,
-- the input has pushes only and leaves a redeem script whose hash that is, and the redeem script
-- runs on the rest of the stack to a stack with a true top.
pub verify_script-redeem :
    (e : Env) (input output : Script) (h : Bytes)
    → verify_script e input output ≡ ok tt
    → e.flags.p2sh ≡ true
    → is_scripthash output.raw ≡ true
    → output.code ≡ scripthash_code h
    → (redeem : Bytes) × (rest : Stack) × (st : Stack) × (is_push_only input.code ≡ true)
      × (execute e (length input.raw) input.code [] ≡ ok (redeem ∷ rest))
      × (e.crypto.hash160 redeem ≡ h)
      × (execute e (length redeem) (from_raw_script redeem) rest ≡ ok st)
      × (check_true st ≡ ok tt)
verify_script-redeem e input output h v p s c =
    let (copy, st, st₁, ran, paid, good, redeemed) = verify_parts e input output v p s in
    let (raw, rest, top, pushes, final, true_top) = redeem_parts e input copy st₁ redeemed in
    let paid' =
      subst (λ (l : Stack). execute e (length output.raw) (scripthash_code h) l ≡ ok st) top
        (subst (λ l. execute e (length output.raw) l copy ≡ ok st) c paid) in
    let result = run_scripthash e (length output.raw) h raw rest st paid' in
    let same = true_result _ rest (subst (λ (l : Stack). check_true l ≡ ok tt) (sym result) good) in
    (raw, rest, st₁, pushes, ran ∙ ap ok top, eq_bytes→eq _ h same, final, true_top)
