-- ===== src/Script/Exec/Bounds.antt =====
-- What holds after every step of an execution.
use litedoge_js.Prelude.{
  ℕ, suc, ◌+◌, ◌≤◌, ◌≡◌, refl, subst, ap, ◌&&◌, Bool, true, false, not, Option, none, some, List,
  [], ◌∷◌, inl, inr, arith, ltb, length, if◌then◌else◌,
}
use litedoge_js.Script.Code
use litedoge_js.Script.Result.{Bytes, Result, ok, error, Result-cases, ◌>>=◌}
use litedoge_js.Script.Op.{Op, invalid, op, is_branch}
use litedoge_js.Script.Handlers.{Env}
use litedoge_js.Script.Stack.{Stack}
use litedoge_js.Script.Handlers.Sigs.{checkmultisig, multisig_counts, max_script_ops}
use litedoge_js.Script.Exec.{
  State, step, run, run_op, switch, op_if, op_else, op_endif, op_toaltstack, op_fromaltstack,
  stack_op, with_stack, with_count, push_data, check_stack_size, max_script_stack,
}

-- The number of false branches.
unfoldable pub count_false : List Bool → ℕ
count_false [] = 0
count_false (b ∷ bs) = if b then count_false bs else suc (count_false bs)

-- `negate` counts the false branches, and the limits hold.
abbrev pub IsValid : State → Type 0
IsValid s =
    (s.negate ≡ count_false s.branches)
    × (s.op_count ≤ max_script_ops)
    × (length s.stack + length s.alt ≤ max_script_stack)

check_stack_size_lem :
    (s t : State)
    → check_stack_size s ≡ ok t
    → (s ≡ t) × (length s.stack + length s.alt ≤ max_script_stack)
unfolding check_stack_size
check_stack_size_lem s t e = (ground arith, ground arith)

-- The part of the invariant that a step keeps before the size of the stacks is tested.
abbrev Keeps : State → Type 0
Keeps s = (s.negate ≡ count_false s.branches) × (s.op_count ≤ max_script_ops)

op_if-Keeps :
    (e : Env) (negated : Bool) (s t : State) → op_if e negated s ≡ ok t → Keeps s → Keeps t
unfolding op_if count_false
op_if-Keeps e negated s t h k = ground arith

op_else-Keeps :
    (s t : State) (bs : List Bool) → s.branches ≡ bs → op_else s bs ≡ ok t → Keeps s → Keeps t
unfolding op_else count_false
op_else-Keeps s t [] q h k = ground arith
op_else-Keeps s t (b ∷ bs) q h k = ground arith

op_endif-Keeps :
    (s t : State) (bs : List Bool) → s.branches ≡ bs → op_endif s bs ≡ ok t → Keeps s → Keeps t
unfolding op_endif count_false
op_endif-Keeps s t [] q h k = ground arith
op_endif-Keeps s t (b ∷ bs) q h k = ground arith

op_toaltstack-Keeps : (s t : State) → op_toaltstack s ≡ ok t → Keeps s → Keeps t
unfolding op_toaltstack
op_toaltstack-Keeps s t h k = ground arith

op_fromaltstack-Keeps : (s t : State) → op_fromaltstack s ≡ ok t → Keeps s → Keeps t
unfolding op_fromaltstack
op_fromaltstack-Keeps s t h k = ground arith

multisig_counts-bound :
    (e : Env) (c n m ops : ℕ) (st : Stack)
    → multisig_counts e c st ≡ ok (n, m, ops)
    → ops ≤ max_script_ops
unfolding multisig_counts
multisig_counts-bound e c n m ops st h = ground arith

checkmultisig-bound :
    (e : Env) (code : List Op) (sep c ops : ℕ) (v : Bool) (st st' : Stack)
    → checkmultisig e code sep c v st ≡ ok (st', ops)
    → ops ≤ max_script_ops
unfolding checkmultisig
checkmultisig-bound e code sep c ops v st st' h = elim (Result-cases (multisig_counts e c st)) [
  | inl ((n, m, o), q) ↦ ground (arith, multisig_counts-bound e c n m o st q)
  | inr (x, q) ↦ ground arith
]

with_stack-Keeps : (s t : State) (r : Result Stack) → with_stack s r ≡ ok t → Keeps s → Keeps t
with_stack-Keeps s t (ok st) h k = ground arith
with_stack-Keeps s t (error x) h k = ground arith

with_count-Keeps :
    (s t : State) (r : Result (Stack × ℕ))
    → ((st : Stack) (ops : ℕ) → r ≡ ok (st, ops) → ops ≤ max_script_ops)
    → with_count s r ≡ ok t
    → Keeps s
    → Keeps t
with_count-Keeps s t (ok (st, ops)) b h k = ground (arith, b st ops refl)
with_count-Keeps s t (error x) b h k = ground arith

switch-Keeps :
    (e : Env) (code : List Op) (ip v : ℕ) (s t : State)
    → switch e code ip v s ≡ ok t
    → Keeps s
    → Keeps t
unfolding switch
switch-Keeps e code ip v s t h k = ground (
  arith,
  op_if-Keeps e false s t,
  op_if-Keeps e true s t,
  op_else-Keeps s t s.branches refl,
  op_endif-Keeps s t s.branches refl,
  op_toaltstack-Keeps s t,
  op_fromaltstack-Keeps s t,
  with_stack-Keeps s t (stack_op e code s v s.stack),
  with_count-Keeps s t (checkmultisig e code s.last_sep s.op_count false s.stack)
      (λ st ops. checkmultisig-bound e code s.last_sep s.op_count ops false s.stack st),
  with_count-Keeps s t (checkmultisig e code s.last_sep s.op_count true s.stack)
      (λ st ops. checkmultisig-bound e code s.last_sep s.op_count ops true s.stack st),
)

push_data-Keeps :
    (e : Env) (v : ℕ) (bytes : Bytes) (s t : State)
    → push_data e v bytes s ≡ ok t
    → Keeps s
    → Keeps t
unfolding push_data
push_data-Keeps e v bytes s t h k = ground arith

run_op-Keeps :
    (e : Env) (code : List Op) (ip v : ℕ) (d : Option Bytes) (s t : State)
    → run_op e code ip v d s ≡ ok t
    → Keeps s
    → Keeps t
unfolding run_op
run_op-Keeps e code ip v none s t h k = switch-Keeps e code ip v s t h k
run_op-Keeps e code ip v (some bytes) s t h k = push_data-Keeps e v bytes s t h k

-- The opcode count after the opcode of a step.
abbrev pub counted : ℕ → State → State
counted v s = record s { op_count = if ltb Code.op_16 v then suc s.op_count else s.op_count }

-- The state before the size of the stacks is tested.
abbrev pub ran : Env → List Op → ℕ → ℕ → Option Bytes → State → Result State
ran e code ip v d s =
    if ltb 0 s.negate && not (is_branch v)
    then ok (counted v s)
    else run_op e code ip v d (counted v s)

pub step-ran :
    (e : Env) (code : List Op) (ip v : ℕ) (d : Option Bytes) (s t : State)
    → step e code ip (op v d) s ≡ ok t
    → s.op_count ≤ max_script_ops
    → ((counted v s).op_count ≤ max_script_ops) × (ran e code ip v d s >>= check_stack_size ≡ ok t)
unfolding step
step-ran e code ip v d s t h k = (ground arith, ground arith)

pub step_parts :
    (t : State) (r : Result State)
    → r >>= check_stack_size ≡ ok t
    → (r ≡ ok t) × (length t.stack + length t.alt ≤ max_script_stack)
step_parts t (ok s') h =
    let (q, room) = check_stack_size_lem s' t h in
    (ap ok q, subst (λ (x : State). length x.stack + length x.alt ≤ max_script_stack) q room)
step_parts t (error x) h = absurd (cc h)

ran-Keeps :
    (e : Env) (code : List Op) (ip v : ℕ) (d : Option Bytes) (s t : State)
    → ran e code ip v d s ≡ ok t
    → Keeps (counted v s)
    → Keeps t
ran-Keeps e code ip v d s t h k = ground (arith, run_op-Keeps e code ip v d (counted v s) t)

-- A step that succeeds keeps the invariant.
pub step-IsValid :
    (e : Env) (code : List Op) (ip : ℕ) (o : Op) (s t : State)
    → step e code ip o s ≡ ok t
    → IsValid s
    → IsValid t
step-IsValid e code ip invalid s t h k = absurd (unfold step in cc h)
step-IsValid e code ip (op v d) s t h k =
    let (ops, checked) = step-ran e code ip v d s t h k.1 in
    let (q, room) = step_parts t (ran e code ip v d s) checked in
    let (n, o) = ran-Keeps e code ip v d s t q (k.0, ops) in (n, o, room)

pub run-nil : (e : Env) (code : List Op) (ip : ℕ) (s t : State) → run e code ip [] s ≡ ok t → s ≡ t
unfolding run
run-nil e code ip s t h = cc h

pub run-cons :
    (e : Env) (code : List Op) (ip : ℕ) (o : Op) (rest : List Op) (s t : State)
    → run e code ip (o ∷ rest) s ≡ ok t
    → (s' : State) × (step e code ip o s ≡ ok s') × (run e code (ip + 1) rest s' ≡ ok t)
unfolding run
run-cons e code ip o rest s t h = elim (Result-cases (step e code ip o s)) [
  | inl (s', q) ↦ (s', q, rw q at h)
  | inr (x, q) ↦ absurd (cc (rw q at h))
]

pub run-IsValid :
    (e : Env) (code : List Op) (ip : ℕ) (rest : List Op) (s t : State)
    → run e code ip rest s ≡ ok t
    → IsValid s
    → IsValid t
run-IsValid e code ip [] s t h k =
    let q : s ≡ t = run-nil e code ip s t h in subst (λ (x : State). IsValid x) q k
run-IsValid e code ip (o ∷ rest) s t h k =
    let (s', q, r) = run-cons e code ip o rest s t h in
    run-IsValid e code (ip + 1) rest s' t r (step-IsValid e code ip o s s' q k)
