-- ===== src/Script/Verify.antt =====
-- lib/script/script.js: `verify`, and the script type that it knows.
pub mod Redeem
use litedoge_js.Prelude.{Bool, not, ◌&&◌, ◌||◌, List, [], ◌==◌, length, if◌then◌else◌}
use litedoge_js.Script.Code
use litedoge_js.Script.Result.{
  Bytes, Result, ok, throw_if, ◌>>=◌, ◌>>◌, sig_pushonly, eval_false, cleanstack, exception,
}
use litedoge_js.Script.Op.{Op, is_push_only}
use litedoge_js.Script.Bytes.{from_raw_script}
use litedoge_js.Script.Checks.{at}
use litedoge_js.Script.Stack.{Stack, get, pop, get_bool}
use litedoge_js.Script.Handlers.{Env}
use litedoge_js.Script.Exec.{execute}

-- A script keeps its bytes beside its opcodes.
pub record Script : Type 0 where
  pub raw : Bytes
  pub code : List Op

unfoldable pub is_scripthash : Bytes → Bool
is_scripthash raw =
    length raw == 23
    && at 0 raw == Code.op_hash160
    && at 1 raw == 0x14
    && at 22 raw == Code.op_equal

unfoldable pub check_true : Stack → Result (Unit {0})
unfolding get_bool
check_true st = throw_if (length st == 0 || not (get_bool 1 st)) eval_false

-- The redeem script on top of the stack that the input left, run on the rest.
unfoldable pub execute_redeem : Env → Script → Stack → Result Stack
unfolding get pop check_true from_raw_script
execute_redeem e input copy = do
  throw_if (not (is_push_only input.code)) sig_pushonly
  throw_if (length copy == 0) eval_false
  raw ← get 1 copy
  st ← execute e (length raw) (from_raw_script raw) (pop copy)
  check_true st
  ok st

-- `e` has the version 0, which `verify` passes to every execution.
unfoldable pub verify_script : Env → Script → Script → Result (Unit {0})
unfolding is_scripthash check_true execute_redeem
verify_script e input output = do
  throw_if (e.flags.sigpushonly && not (is_push_only input.code)) sig_pushonly
  copy ← execute e (length input.raw) input.code []
  st ← execute e (length output.raw) output.code copy
  check_true st
  st₁ ← (if e.flags.p2sh && is_scripthash output.raw then execute_redeem e input copy else ok st)
  throw_if (e.flags.cleanstack && not e.flags.p2sh) exception
  throw_if (e.flags.cleanstack && not (length st₁ == 1)) cleanstack
