-- ===== src/Script/Exec.antt =====
-- lib/script/script.js: `execute`.
pub mod Bounds
pub mod Dead
pub mod Final
use litedoge_js.Prelude.{
  ℕ, suc, ◌+◌, ◌-◌, Bool, true, false, not, ◌&&◌, ◌||◌, Option, none, some, List, [], ◌∷◌, ltb, leb,
  ◌==◌, length, if◌then◌else◌,
}
use litedoge_js.Prelude.Int.{ℤ, pos, negsuc, ◌-ℤ◌}
use litedoge_js.Script.Code
use litedoge_js.Script.Result.{
  Bytes, Result, ok, error, throw_if, ◌>>=◌, ◌>>◌, bad_opcode, script_size, push_size, op_limit,
  disabled_opcode, op_codeseparator, stack_size, minimaldata, invalid_stack_operation,
  invalid_altstack_operation, discourage_upgradable_nops, unbalanced_conditional, minimalif,
  op_return, verify,
}
use litedoge_js.Script.Op.{Op, invalid, op, is_minimal_push, is_disabled, is_branch}
use litedoge_js.Script.Checks.{Flags, at}
use litedoge_js.Script.Stack.{Stack, get, pop, push, push_int, get_bool}
use litedoge_js.Script.Handlers.{Crypto, Env}
use litedoge_js.Script.Handlers.Shuffle.{need, shuffle_op}
use litedoge_js.Script.Handlers.Arith.{unary_op, binary_op, within, equal}
use litedoge_js.Script.Handlers.Sigs.{hash, check_locktime, checksig, checkmultisig, max_script_ops}

abbrev pub max_script_size : ℕ
max_script_size = 10_000

abbrev pub max_script_stack : ℕ
max_script_stack = 1000

abbrev pub max_script_push : ℕ
max_script_push = 520

-- The local variables of `execute` and its stack. `branches` is `state` there, the innermost
-- conditional first; `negate` counts those that are false.
pub record State : Type 0 where
  pub stack : Stack
  pub alt : Stack
  pub branches : List Bool
  pub negate : ℕ
  pub op_count : ℕ
  pub last_sep : ℕ

-- The item that decides an OP_IF must be empty or one, under MINIMALIF.
unfoldable pub check_minimal_if : Env → Bytes → Result (Unit {0})
check_minimal_if e x =
    throw_if
      (e.version == 1
        && e.flags.minimalif
        && (ltb 1 (length x) || length x == 1 && not (at 0 x == 1)))
      minimalif

-- The value of the branch, and the stack below it. A branch inside a dead one is dead.
unfoldable pub branch_value : Env → Bool → State → Result (Bool × Stack)
unfolding get get_bool pop check_minimal_if
branch_value e negated s = if ltb 0 s.negate then ok (false, s.stack) else do
  throw_if (ltb (length s.stack) 1) unbalanced_conditional
  x ← get 1 s.stack
  check_minimal_if e x
  let val = get_bool 1 s.stack
  ok ((if negated then not val else val), pop s.stack)

-- OP_IF, and OP_NOTIF where `negated`.
unfoldable pub op_if : Env → Bool → State → Result State
unfolding branch_value
op_if e negated s = do
  (val, st) ← branch_value e negated s
  ok (record s {
    stack = st;
    branches = val ∷ s.branches;
    negate = if val then s.negate else suc s.negate;
  })

unfoldable pub op_else : State → List Bool → Result State
op_else s [] = error unbalanced_conditional
op_else s (b ∷ bs) =
    ok (record s { branches = not b ∷ bs; negate = if b then suc s.negate else (s.negate - 1) })

unfoldable pub op_endif : State → List Bool → Result State
op_endif s [] = error unbalanced_conditional
op_endif s (b ∷ bs) =
    ok (record s { branches = bs; negate = if b then s.negate else (s.negate - 1) })

unfoldable pub op_toaltstack : State → Result State
unfolding get pop push
op_toaltstack s = do
  need 1 s.stack
  x ← get 1 s.stack
  ok (record s { stack = pop s.stack; alt = push x s.alt })

unfoldable pub op_fromaltstack : State → Result State
unfolding get pop push
op_fromaltstack s = do
  throw_if (length s.alt == 0) invalid_altstack_operation
  x ← get 1 s.alt
  ok (record s { stack = push x s.stack; alt = pop s.alt })

unfoldable pub op_verify : Stack → Result Stack
unfolding get_bool pop
op_verify st = do need 1 st; throw_if (not (get_bool 1 st)) verify; ok (pop st)

abbrev between : ℕ → ℕ → ℕ → Bool
between lo hi v = leb lo v && leb v hi

-- The cases that touch the stack only.
unfoldable pub stack_op : Env → List Op → State → ℕ → Stack → Result Stack
unfolding push_int op_verify
stack_op e code s v st =
    let min = e.flags.minimaldata in
    if v == Code.op_0
    then ok (push_int (pos 0) st)
    else if v == Code.op_1negate
    then ok (push_int (negsuc 0) st)
    else if between Code.op_1 Code.op_16 v
    then ok (push_int (pos v -ℤ pos 0x50) st)
    else if v == Code.op_nop
    then ok st
    else if v == Code.op_checklocktimeverify
    then check_locktime e e.flags.checklocktimeverify false st
    else if v == Code.op_checksequenceverify
    then check_locktime e e.flags.checksequenceverify true st
    else if v == Code.op_nop1 || between Code.op_nop4 Code.op_nop10 v
    then (throw_if e.flags.discourage_upgradable_nops discourage_upgradable_nops >> ok st)
    else if v == Code.op_verify
    then op_verify st
    else if v == Code.op_return
    then error op_return
    else if between Code.op_2drop Code.op_tuck v || v == Code.op_size
    then shuffle_op min v st
    else if v == Code.op_equal
    then equal false st
    else if v == Code.op_equalverify
    then equal true st
    else if v == Code.op_1add || v == Code.op_1sub || between Code.op_negate Code.op_0notequal v
    then unary_op min v st
    else if v == Code.op_add || v == Code.op_sub || between Code.op_booland Code.op_max v
    then binary_op min v st
    else if v == Code.op_within
    then within min st
    else if v == Code.op_ripemd160
    then hash e.crypto.ripemd160 st
    else if v == Code.op_sha1
    then hash e.crypto.sha1 st
    else if v == Code.op_sha256
    then hash e.crypto.sha256 st
    else if v == Code.op_hash160
    then hash e.crypto.hash160 st
    else if v == Code.op_hash256
    then hash e.crypto.hash256 st
    else if v == Code.op_checksig
    then checksig e code s.last_sep false st
    else if v == Code.op_checksigverify
    then checksig e code s.last_sep true st
    else error bad_opcode

abbrev pub with_stack : State → Result Stack → Result State
with_stack s r = r >>= λ st. ok (record s { stack = st })

abbrev pub with_count : State → Result (Stack × ℕ) → Result State
with_count s r = r >>= λ p. ok (record s { stack = p.0; op_count = p.1 })

-- The switch, on an opcode without data; `ip` is its index in the code.
unfoldable pub switch : Env → List Op → ℕ → ℕ → State → Result State
switch e code ip v s =
    if v == Code.op_if
    then op_if e false s
    else if v == Code.op_notif
    then op_if e true s
    else if v == Code.op_else
    then op_else s s.branches
    else if v == Code.op_endif
    then op_endif s s.branches
    else if v == Code.op_toaltstack
    then op_toaltstack s
    else if v == Code.op_fromaltstack
    then op_fromaltstack s
    else if v == Code.op_codeseparator
    then ok (record s { last_sep = ip + 1 })
    else if v == Code.op_checkmultisig
    then with_count s (checkmultisig e code s.last_sep s.op_count false s.stack)
    else if v == Code.op_checkmultisigverify
    then with_count s (checkmultisig e code s.last_sep s.op_count true s.stack)
    else with_stack s (stack_op e code s v s.stack)

unfoldable pub check_stack_size : State → Result State
check_stack_size s =
    throw_if (ltb max_script_stack (length s.stack + length s.alt)) stack_size >> ok s

-- An opcode with data pushes it.
unfoldable pub push_data : Env → ℕ → Bytes → State → Result State
unfolding is_minimal_push push
push_data e v bytes s = do
  throw_if (e.flags.minimaldata && not (is_minimal_push v bytes)) minimaldata
  ok (record s { stack = push bytes s.stack })

-- What an opcode does in a live branch.
unfoldable pub run_op : Env → List Op → ℕ → ℕ → Option Bytes → State → Result State
run_op e code ip v none s = switch e code ip v s
run_op e code ip v (some bytes) s = push_data e v bytes s

abbrev pub data_length : Option Bytes → ℕ
data_length none = 0
data_length (some bytes) = length bytes

-- The body of the loop.
unfoldable pub step : Env → List Op → ℕ → Op → State → Result State
unfolding is_disabled is_branch
step e code ip invalid s = error bad_opcode
step e code ip (op v d) s =
    let ops = if ltb Code.op_16 v then suc s.op_count else s.op_count in
    let s₁ : State = record s { op_count = ops } in
    do
      throw_if (ltb max_script_push (data_length d)) push_size
      throw_if (ltb Code.op_16 v && ltb max_script_ops ops) op_limit
      throw_if (is_disabled v) disabled_opcode
      throw_if (v == Code.op_codeseparator && e.version == 0 && e.flags.const_scriptcode)
          op_codeseparator
      s₂ ← (if ltb 0 s.negate && not (is_branch v) then ok s₁ else run_op e code ip v d s₁)
      check_stack_size s₂

unfoldable pub run : Env → List Op → ℕ → List Op → State → Result State
unfolding step
run e code ip [] s = ok s
run e code ip (o ∷ rest) s = do s' ← step e code ip o s; run e code (ip + 1) rest s'

abbrev pub start : Stack → State
start st = record { stack = st; alt = []; branches = []; negate = 0; op_count = 0; last_sep = 0 }

-- `execute`: `raw_length` is the size of the script's bytes.
unfoldable pub execute : Env → ℕ → List Op → Stack → Result Stack
unfolding run
execute e raw_length code st = do
  throw_if (ltb max_script_size raw_length) script_size
  s ← run e code 0 code (start st)
  throw_if (not (length s.branches == 0)) unbalanced_conditional
  ok s.stack
