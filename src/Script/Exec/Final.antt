-- ===== src/Script/Exec/Final.antt =====
-- What holds where an execution has succeeded.
use litedoge_js.Prelude.{ℕ, ◌≤◌, ◌≡◌, refl, ◌∙◌, Bool, List, [], ◌∷◌, arith, length}
use litedoge_js.Script.Result.{Result, ok, error}
use litedoge_js.Script.Op.{Op}
use litedoge_js.Script.Handlers.{Env}
use litedoge_js.Script.Stack.{Stack}
use litedoge_js.Script.Exec.{State, start, run, execute, max_script_stack, max_script_size}
use litedoge_js.Script.Exec.Bounds.{count_false, IsValid, run-IsValid}

nil-of_length : (bs : List Bool) → length bs ≡ 0 → bs ≡ []
nil-of_length [] h = refl
nil-of_length (b ∷ bs) h = absurd (omega (arith, h))

count_false-nil : (bs : List Bool) → bs ≡ [] → count_false bs ≡ 0
unfolding count_false
count_false-nil [] h = refl
count_false-nil (b ∷ bs) h = cc h

start-IsValid : (st : Stack) → length st ≤ max_script_stack → IsValid (start st)
unfolding count_false
start-IsValid st h = (refl, omega arith, omega (arith, h))

pub execute_parts :
    (e : Env) (n : ℕ) (code : List Op) (st st' : Stack) (r : Result State)
    → run e code 0 code (start st) ≡ r
    → execute e n code st ≡ ok st'
    → (s : State) × (r ≡ ok s) × (n ≤ max_script_size) × (s.branches ≡ []) × (s.stack ≡ st')
unfolding execute
execute_parts e n code st st' (ok s) q h =
    (s, refl, ground arith, nil-of_length s.branches (ground arith), ground arith)
execute_parts e n code st st' (error x) q h = ground arith

-- An execution that succeeds from a stack within its limit ran every opcode, and stops in a state
-- where no branch is open or counted, at most 201 counted opcodes ran, and the result and the
-- alternative stack are within the limit; the script is at most 10000 bytes.
pub execute-IsValid :
    (e : Env) (n : ℕ) (code : List Op) (st st' : Stack)
    → execute e n code st ≡ ok st'
    → length st ≤ max_script_stack
    → (s : State) × (run e code 0 code (start st) ≡ ok s)
      × (s.stack ≡ st')
      × IsValid s
      × (s.branches ≡ [])
      × (s.negate ≡ 0)
      × (n ≤ max_script_size)
execute-IsValid e n code st st' h k =
    let (s, q, small, closed, same) = execute_parts e n code st st' _ refl h in
    let valid = run-IsValid e code 0 code (start st) s q (start-IsValid st k) in
    (s, q, same, valid, closed, valid.0 ∙ count_false-nil s.branches closed, small)
