-- ===== src/Script/Exec/Dead.antt =====
-- Opcodes in a branch that is not taken.
use litedoge_js.Prelude.{
  ℕ, ◌≤◌, ◌<◌, ◌≡◌, ◌≢◌, refl, Bool, true, false, Option, none, some, List, [], ◌∷◌, arith,
  Bool-cases, inl, inr,
}
use litedoge_js.Script.Result.{Bytes, Result, ok, error}
use litedoge_js.Script.Op.{Op, op, is_branch}
use litedoge_js.Script.Handlers.{Env}
use litedoge_js.Script.Stack.{Stack}
use litedoge_js.Script.Handlers.Sigs.{max_script_ops}
use litedoge_js.Script.Exec.{
  State, step, run_op, switch, op_if, op_else, op_endif, stack_op, with_stack, branch_value,
}
use litedoge_js.Script.Exec.Bounds.{counted, ran, step-ran, step_parts}

-- The stacks and the separator are those of another state.
abbrev SameStacks : State → State → Type 0
SameStacks s t = (t.stack ≡ s.stack) × (t.alt ≡ s.alt) × (t.last_sep ≡ s.last_sep)

op_if-SameStacks :
    (e : Env) (negated : Bool) (s t : State)
    → op_if e negated s ≡ ok t
    → 0 < s.negate
    → SameStacks s t
unfolding op_if branch_value
op_if-SameStacks e negated s t h k = (ground arith, ground arith, ground arith)

op_else-SameStacks : (s t : State) (bs : List Bool) → op_else s bs ≡ ok t → SameStacks s t
unfolding op_else
op_else-SameStacks s t [] h = (ground arith, ground arith, ground arith)
op_else-SameStacks s t (b ∷ bs) h = (ground arith, ground arith, ground arith)

op_endif-SameStacks : (s t : State) (bs : List Bool) → op_endif s bs ≡ ok t → SameStacks s t
unfolding op_endif
op_endif-SameStacks s t [] h = (ground arith, ground arith, ground arith)
op_endif-SameStacks s t (b ∷ bs) h = (ground arith, ground arith, ground arith)

-- The branch opcodes other than the four are bad.
stack_op-branch :
    (e : Env) (code : List Op) (s : State) (v : ℕ) (st st' : Stack)
    → is_branch v ≡ true
    → stack_op e code s v st ≢ ok st'
unfolding is_branch stack_op
stack_op-branch e code s v st st' b h = ground arith

with_stack-ne :
    (s t : State) (r : Result Stack) → ((st : Stack) → r ≢ ok st) → with_stack s r ≢ ok t
with_stack-ne s t (ok st) n h = n st refl
with_stack-ne s t (error x) n h = cc h

switch-branch :
    (e : Env) (code : List Op) (ip v : ℕ) (s t : State)
    → switch e code ip v s ≡ ok t
    → is_branch v ≡ true
    → 0 < s.negate
    → SameStacks s t
unfolding switch is_branch
switch-branch e code ip v s t h b k = ground (
  arith,
  op_if-SameStacks e false s t,
  op_if-SameStacks e true s t,
  op_else-SameStacks s t s.branches,
  op_endif-SameStacks s t s.branches,
  with_stack-ne s t (stack_op e code s v s.stack) (λ st. stack_op-branch e code s v s.stack st b),
)

run_op-branch :
    (e : Env) (code : List Op) (ip v : ℕ) (d : Option Bytes) (s t : State)
    → run_op e code ip v d s ≡ ok t
    → d ≡ none
    → is_branch v ≡ true
    → 0 < s.negate
    → SameStacks s t
unfolding run_op
run_op-branch e code ip v none s t h q b k = switch-branch e code ip v s t h b k
run_op-branch e code ip v (some x) s t h q b k = absurd (cc q)

ran-SameStacks :
    (e : Env) (code : List Op) (ip v : ℕ) (d : Option Bytes) (s t : State)
    → ran e code ip v d s ≡ ok t
    → (is_branch v ≡ true → d ≡ none)
    → 0 < s.negate
    → SameStacks s t
ran-SameStacks e code ip v d s t h q k = elim (Bool-cases (is_branch v)) [
  | inl b ↦ run_op-branch e code ip v d (counted v s) t (ground arith) (q b) b k
  | inr b ↦ (ground arith, ground arith, ground arith)
]

-- In a branch that is not taken a step that succeeds leaves both stacks and the position of the
-- last separator as they were, whatever the opcode, where a branch opcode has no data and the count
-- of opcodes is within its limit.
pub step-SameStacks :
    (e : Env) (code : List Op) (ip v : ℕ) (d : Option Bytes) (s t : State)
    → step e code ip (op v d) s ≡ ok t
    → (is_branch v ≡ true → d ≡ none)
    → s.op_count ≤ max_script_ops
    → 0 < s.negate
    → (t.stack ≡ s.stack) × (t.alt ≡ s.alt) × (t.last_sep ≡ s.last_sep)
step-SameStacks e code ip v d s t h q k n =
    let (ops, checked) = step-ran e code ip v d s t h k in
    let (r, room) = step_parts t (ran e code ip v d s) checked in
    ran-SameStacks e code ip v d s t r q n
