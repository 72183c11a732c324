-- ===== src/Script/Handlers/Sigs.antt =====
-- lib/script/script.js: hashes, locktimes, OP_CHECKSIG and OP_CHECKMULTISIG.
use litedoge_js.Prelude.{
  ℕ, zero, suc, ◌+◌, ◌-◌, Bool, true, false, not, ◌&&◌, none, some, List, ltb, ◌==◌, length, drop,
  if◌then◌else◌,
}
use litedoge_js.Prelude.Int.{ℤ, pos, negsuc}
use litedoge_js.Script.Result.{
  Bytes, ScriptError, Result, ok, error, throw_if, ◌>>=◌, ◌>>◌, unknown_error, negative_locktime,
  unsatisfied_locktime, sig_findanddelete, nullfail, checksigverify, pubkey_count, op_limit,
  sig_count, sig_nulldummy, checkmultisigverify,
}
use litedoge_js.Script.Op.{Op, until_invalid, find_and_delete}
use litedoge_js.Script.Checks.{
  Spending, at, without_type, validate_signature, validate_key, verify_locktime, verify_sequence,
}
use litedoge_js.Script.Stack.{Stack, get, pop, push, push_bool, get_num}
use litedoge_js.Script.Handlers.{Env}
use litedoge_js.Script.Handlers.Shuffle.{need}

abbrev pub max_script_ops : ℕ
max_script_ops = 201

abbrev pub max_multisig_pubkeys : ℕ
max_multisig_pubkeys = 20

-- `getSubscript`: a script from the last separator on stops at the first invalid opcode.
unfoldable pub get_subscript : ℕ → List Op → List Op
unfolding until_invalid
get_subscript last_sep code = if last_sep == 0 then code else until_invalid (drop last_sep code)

unfoldable pub hash : (Bytes → Bytes) → Stack → Result Stack
unfolding get pop push
hash digest st = do need 1 st; x ← get 1 st; ok (push (digest x) (pop st))

locktime_holds : Bool → Spending → ℤ → Result (Unit {0})
unfolding verify_locktime verify_sequence
locktime_holds relative tx (negsuc n) = error negative_locktime
locktime_holds relative tx (pos n) =
    throw_if (not (if relative then verify_sequence tx n else verify_locktime tx n))
      unsatisfied_locktime

-- OP_CHECKLOCKTIMEVERIFY, and OP_CHECKSEQUENCEVERIFY where `relative`: they leave the stack alone.
unfoldable pub check_locktime : Env → Bool → Bool → Stack → Result Stack
unfolding get_num locktime_holds
check_locktime e enabled relative st = if not enabled then ok st else elim e.tx [
  | none ↦ error unknown_error
  | some tx ↦ do
    need 1 st
    num ← get_num 1 e.flags.minimaldata 5 st
    locktime_holds relative tx num
    ok st
]

-- `checksig` on the signature hash of the subscript, for a signature that is not empty.
unfoldable pub check_sig : Env → List Op → Bytes → Bytes → Bool
check_sig e subscript sig key =
    not (length sig == 0)
    && e.crypto.verify_der (e.crypto.signature_hash subscript (at (length sig - 1) sig) e.version)
        (without_type sig) key

-- The subscript without the signature, in scripts of version 0.
unfoldable pub delete_sig : Env → Bytes → List Op → Result (List Op)
unfolding find_and_delete
delete_sig e sig subscript =
    if not (e.version == 0)
    then ok subscript
    else let (rest, found) = find_and_delete sig subscript in
      if ltb 0 found && e.flags.const_scriptcode then error sig_findanddelete else ok rest

-- OP_CHECKSIG, and OP_CHECKSIGVERIFY where `then_verify`.
unfoldable pub checksig : Env → List Op → ℕ → Bool → Stack → Result Stack
unfolding get pop push_bool get_subscript delete_sig validate_signature validate_key check_sig
checksig e code last_sep then_verify st = elim e.tx [
  | none ↦ error unknown_error
  | some tx ↦ do
    need 2 st
    sig ← get 2 st
    key ← get 1 st
    subscript ← delete_sig e sig (get_subscript last_sep code)
    validate_signature e.crypto.is_low_der sig e.flags
    validate_key key e.flags
    let res = check_sig e subscript sig key
    throw_if (not res && e.flags.nullfail && not (length sig == 0)) nullfail
    let st₁ = push_bool res (pop (pop st))
    if then_verify then (throw_if (not res) checksigverify >> ok (pop st₁)) else ok st₁
]

-- A number from 0 to `bound`.
abbrev pub count : ℤ → ℕ → ScriptError → Result ℕ
count (negsuc n) bound e = error e
count (pos n) bound e = if ltb bound n then error e else ok n

-- The loop that deletes the signatures: `k` of them, from index `isig` down.
unfoldable pub delete_sigs : Env → ℕ → ℕ → Stack → List Op → Result (List Op)
unfolding get delete_sig
delete_sigs e zero isig st subscript = ok subscript
delete_sigs e (suc k) isig st subscript = do
  sig ← get isig st
  rest ← delete_sig e sig subscript
  delete_sigs e k (isig + 1) st rest

-- The loop over the `n` keys left and the `m` signatures left. It is entered with m ≤ n.
unfoldable pub match_sigs : Env → List Op → Stack → ℕ → ℕ → ℕ → ℕ → Result Bool
unfolding get
match_sigs e subscript st zero m isig ikey = ok (m == 0)
match_sigs e subscript st (suc n) m isig ikey = if m == 0 then ok true else do
  sig ← get isig st
  key ← get ikey st
  validate_signature e.crypto.is_low_der sig e.flags
  validate_key key e.flags
  let matched : ℕ = if check_sig e subscript sig key then 1 else 0
  if ltb n (m - matched)
      then ok false
      else match_sigs e subscript st n (m - matched) (isig + matched) (ikey + 1)

-- The loop that pops `k` elements; the first `okey` of them may be anything.
unfoldable pub clear : Env → Bool → ℕ → ℕ → Stack → Result Stack
unfolding get pop
clear e res zero okey st = ok st
clear e res (suc k) okey st = do
  x ← get 1 st
  throw_if (not res && e.flags.nullfail && okey == 0 && not (length x == 0)) nullfail
  clear e res k (okey - 1) (pop st)

-- The counts of keys and signatures, and the opcode count with the keys.
unfoldable pub multisig_counts : Env → ℕ → Stack → Result (ℕ × ℕ × ℕ)
unfolding get_num
multisig_counts e op_count st = do
  need 1 st
  nkeys ← get_num 1 e.flags.minimaldata 4 st
  n ← count nkeys max_multisig_pubkeys pubkey_count
  throw_if (ltb max_script_ops (op_count + n)) op_limit
  need (2 + n) st
  nsigs ← get_num (2 + n) e.flags.minimaldata 4 st
  m ← count nsigs n sig_count
  need (3 + n + m) st
  ok (n, m, op_count + n)

-- The element below the signatures, which OP_CHECKMULTISIG pops too.
unfoldable pub pop_dummy : Env → Stack → Result Stack
unfolding get pop
pop_dummy e st = do
  need 1 st
  x ← get 1 st
  throw_if (e.flags.nulldummy && not (length x == 0)) sig_nulldummy
  ok (pop st)

-- OP_CHECKMULTISIG, and OP_CHECKMULTISIGVERIFY where `then_verify`: the stack and the opcode count.
unfoldable pub checkmultisig : Env → List Op → ℕ → ℕ → Bool → Stack → Result (Stack × ℕ)
unfolding pop push_bool get_subscript multisig_counts delete_sigs match_sigs clear pop_dummy
checkmultisig e code last_sep op_count then_verify st = elim e.tx [
  | none ↦ error unknown_error
  | some tx ↦ do
    (n, m, ops) ← multisig_counts e op_count st
    subscript ← delete_sigs e m (3 + n) st (get_subscript last_sep code)
    res ← match_sigs e subscript st n m (3 + n) 2
    st₁ ← clear e res (2 + n + m) (2 + n) st
    st₂ ← pop_dummy e st₁
    let st₃ = push_bool res st₂
    if then_verify
        then (throw_if (not res) checkmultisigverify >> ok (pop st₃, ops))
        else ok (st₃, ops)
]
