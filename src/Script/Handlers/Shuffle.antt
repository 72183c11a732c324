-- ===== src/Script/Handlers/Shuffle.antt =====
-- lib/script/script.js: the opcodes that move, copy and drop elements of the stack.
use litedoge_js.Prelude.{ℕ, ◌+◌, Bool, true, false, ltb, leb, ◌==◌, length, if◌then◌else◌}
use litedoge_js.Prelude.Int.{ℤ, pos, negsuc}
use litedoge_js.Script.Code
use litedoge_js.Script.Result.{
  Result, ok, error, bad_opcode, invalid_stack_operation, throw_if, ◌>>=◌, ◌>>◌,
}
use litedoge_js.Script.Stack.{
  Stack, get, pop, push, remove, insert, erase, swap, push_int, get_num, get_bool,
}

abbrev pub need : ℕ → Stack → Result (Unit {0})
need n st = throw_if (ltb (length st) n) invalid_stack_operation

unfoldable pub drop2 : Stack → Result Stack
unfolding pop
drop2 st = need 2 st >> ok (pop (pop st))

unfoldable pub dup2 : Stack → Result Stack
unfolding get push
dup2 st = do need 2 st; v1 ← get 2 st; v2 ← get 1 st; ok (push v2 (push v1 st))

unfoldable pub dup3 : Stack → Result Stack
unfolding get push
dup3 st = do
  need 3 st
  v1 ← get 3 st
  v2 ← get 2 st
  v3 ← get 1 st
  ok (push v3 (push v2 (push v1 st)))

unfoldable pub over2 : Stack → Result Stack
unfolding get push
over2 st = do need 4 st; v1 ← get 4 st; v2 ← get 3 st; ok (push v2 (push v1 st))

unfoldable pub rot2 : Stack → Result Stack
unfolding get push erase
rot2 st = do need 6 st; v1 ← get 6 st; v2 ← get 5 st; ok (push v2 (push v1 (erase 6 4 st)))

unfoldable pub swap2 : Stack → Result Stack
unfolding swap
swap2 st = do need 4 st; st₁ ← swap 4 2 st; swap 3 1 st₁

unfoldable pub ifdup : Stack → Result Stack
unfolding get push get_bool
ifdup st = do need 1 st; val ← get 1 st; if get_bool 1 st then ok (push val st) else ok st

unfoldable pub depth : Stack → Result Stack
unfolding push_int
depth st = ok (push_int (pos (length st)) st)

unfoldable pub drop1 : Stack → Result Stack
unfolding pop
drop1 st = need 1 st >> ok (pop st)

unfoldable pub dup : Stack → Result Stack
unfolding get push
dup st = do need 1 st; val ← get 1 st; ok (push val st)

unfoldable pub nip : Stack → Result Stack
unfolding remove
nip st = need 2 st >> ok (remove 2 st)

unfoldable pub over : Stack → Result Stack
unfolding get push
over st = do need 2 st; val ← get 2 st; ok (push val st)

-- The element `num` below the top, which OP_ROLL takes out.
unfoldable pub pick_at : Bool → ℤ → Stack → Result Stack
unfolding get push remove
pick_at roll (negsuc n) st = error invalid_stack_operation
pick_at roll (pos n) st = do
  throw_if (leb (length st) n) invalid_stack_operation
  val ← get (n + 1) st
  ok (push val (if roll then remove (n + 1) st else st))

unfoldable pub pick : Bool → Bool → Stack → Result Stack
unfolding get_num pop pick_at
pick minimal roll st = do need 2 st; num ← get_num 1 minimal 4 st; pick_at roll num (pop st)

unfoldable pub rot : Stack → Result Stack
unfolding swap
rot st = do need 3 st; st₁ ← swap 3 2 st; swap 2 1 st₁

unfoldable pub swap1 : Stack → Result Stack
unfolding swap
swap1 st = need 2 st >> swap 2 1 st

unfoldable pub tuck : Stack → Result Stack
unfolding get insert
tuck st = do need 2 st; val ← get 1 st; ok (insert 2 val st)

unfoldable pub size : Stack → Result Stack
unfolding get push_int
size st = do need 1 st; val ← get 1 st; ok (push_int (pos (length val)) st)

unfoldable pub shuffle_op : Bool → ℕ → Stack → Result Stack
shuffle_op minimal v st =
    if v == Code.op_2drop
    then drop2 st
    else if v == Code.op_2dup
    then dup2 st
    else if v == Code.op_3dup
    then dup3 st
    else if v == Code.op_2over
    then over2 st
    else if v == Code.op_2rot
    then rot2 st
    else if v == Code.op_2swap
    then swap2 st
    else if v == Code.op_ifdup
    then ifdup st
    else if v == Code.op_depth
    then depth st
    else if v == Code.op_drop
    then drop1 st
    else if v == Code.op_dup
    then dup st
    else if v == Code.op_nip
    then nip st
    else if v == Code.op_over
    then over st
    else if v == Code.op_pick
    then pick minimal false st
    else if v == Code.op_roll
    then pick minimal true st
    else if v == Code.op_rot
    then rot st
    else if v == Code.op_swap
    then swap1 st
    else if v == Code.op_tuck
    then tuck st
    else if v == Code.op_size
    then size st
    else error bad_opcode
