-- ===== src/Script/Handlers/Arith.antt =====
-- lib/script/script.js: the opcodes on numbers, and OP_EQUAL.
use litedoge_js.Prelude.{ℕ, ◌+◌, Bool, not, ◌&&◌, ◌||◌, ◌==◌, if◌then◌else◌}
use litedoge_js.Prelude.Int.{ℤ, pos, ◌+ℤ◌, ◌-ℤ◌, negate, ltb_ℤ, pos_part, neg_part}
use litedoge_js.Script.Code
use litedoge_js.Script.Op.{eq_bytes}
use litedoge_js.Script.Result.{Result, ok, equalverify, numequalverify, throw_if, ◌>>=◌, ◌>>◌}
use litedoge_js.Script.Stack.{Stack, get, pop, push_int, push_bool, get_num, get_bool}
use litedoge_js.Script.Handlers.Shuffle.{need}

abbrev pub of_bool : Bool → ℤ
of_bool b = if b then pos 1 else pos 0

abbrev pub is_zero : ℤ → Bool
is_zero n = pos_part n == neg_part n

abbrev pub eq_ℤ : ℤ → ℤ → Bool
eq_ℤ a b = pos_part a + neg_part b == pos_part b + neg_part a

unfoldable pub unary : ℕ → ℤ → ℤ
unary v n =
    if v == Code.op_1add
    then n +ℤ pos 1
    else if v == Code.op_1sub
    then n -ℤ pos 1
    else if v == Code.op_negate
    then negate n
    else if v == Code.op_abs
    then (if ltb_ℤ n (pos 0) then negate n else n)
    else if v == Code.op_not
    then of_bool (is_zero n)
    else of_bool (not (is_zero n))

unfoldable pub unary_op : Bool → ℕ → Stack → Result Stack
unfolding get_num pop push_int
unary_op minimal v st = do
  need 1 st
  num ← get_num 1 minimal 4 st
  ok (push_int (unary v num) (pop st))

unfoldable pub binary : ℕ → ℤ → ℤ → ℤ
binary v n1 n2 =
    if v == Code.op_add
    then n1 +ℤ n2
    else if v == Code.op_sub
    then n1 -ℤ n2
    else if v == Code.op_booland
    then of_bool (not (is_zero n1) && not (is_zero n2))
    else if v == Code.op_boolor
    then of_bool (not (is_zero n1) || not (is_zero n2))
    else if v == Code.op_numequal
    then of_bool (eq_ℤ n1 n2)
    else if v == Code.op_numequalverify
    then of_bool (eq_ℤ n1 n2)
    else if v == Code.op_numnotequal
    then of_bool (not (eq_ℤ n1 n2))
    else if v == Code.op_lessthan
    then of_bool (ltb_ℤ n1 n2)
    else if v == Code.op_greaterthan
    then of_bool (ltb_ℤ n2 n1)
    else if v == Code.op_lessthanorequal
    then of_bool (not (ltb_ℤ n2 n1))
    else if v == Code.op_greaterthanorequal
    then of_bool (not (ltb_ℤ n1 n2))
    else if v == Code.op_min
    then (if ltb_ℤ n1 n2 then n1 else n2)
    else if ltb_ℤ n2 n1
    then n1
    else n2

unfoldable pub binary_op : Bool → ℕ → Stack → Result Stack
unfolding get_num get_bool pop push_int
binary_op minimal v st = do
  need 2 st
  n1 ← get_num 2 minimal 4 st
  n2 ← get_num 1 minimal 4 st
  let st₁ = push_int (binary v n1 n2) (pop (pop st))
  if v == Code.op_numequalverify
      then (throw_if (not (get_bool 1 st₁)) numequalverify >> ok (pop st₁))
      else ok st₁

unfoldable pub within : Bool → Stack → Result Stack
unfolding get_num pop push_bool
within minimal st = do
  need 3 st
  n1 ← get_num 3 minimal 4 st
  n2 ← get_num 2 minimal 4 st
  n3 ← get_num 1 minimal 4 st
  ok (push_bool (not (ltb_ℤ n1 n2) && ltb_ℤ n1 n3) (pop (pop (pop st))))

unfoldable pub equal : Bool → Stack → Result Stack
unfolding get pop push_bool
equal then_verify st = do
  need 2 st
  v1 ← get 2 st
  v2 ← get 1 st
  let res = eq_bytes v1 v2
  let st₁ = push_bool res (pop (pop st))
  if then_verify then (throw_if (not res) equalverify >> ok (pop st₁)) else ok st₁
