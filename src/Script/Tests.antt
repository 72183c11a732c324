-- ===== src/Script/Tests.antt =====
-- Runs of the script interpreter on concrete scripts.
use litedoge_js.Prelude.{
  ℕ, ◌+◌, ◌≤◌, ◌≡◌, ◌≢◌, ◌⊎◌, ◌↔◌, refl, true, false, none, some, List, [], ◌∷◌, ◌++◌, arith,
  length, inl, inr, take, drop,
}
use litedoge_js.Prelude.Int.{ℤ, pos, negsuc, ◌+ℤ◌, ◌-ℤ◌, ◌≤ℤ◌}
use litedoge_js.Script.Code
use litedoge_js.Script.Result.{Bytes, ok, error, numequalverify}
use litedoge_js.Script.Num.{encode, decode}
use litedoge_js.Script.Num.Roundtrip.{decode-encode}
use litedoge_js.Script.Op.{Op, op, eq_bytes}
use litedoge_js.Script.Checks.{Flags, validate_signature, validate_key}
use litedoge_js.Script.Stack.{Stack, to_bool}
use litedoge_js.Script.Handlers.{Crypto, Env}
use litedoge_js.Script.Handlers.Shuffle.{shuffle_op, pick}
use litedoge_js.Script.Handlers.Arith.{equal, binary, binary_op}
use litedoge_js.Script.Handlers.Laws.{shuffle_op_lem, pick-encode}
use litedoge_js.Script.Handlers.Numbers.{Tells, IsLess, IsLeast, IsGreatest, binary_op-encode}
use litedoge_js.Script.Handlers.Sigs.{hash, match_sigs, checkmultisig, check_sig}
use litedoge_js.Script.Handlers.Multisig.{HaveKeys, match_sigs-HaveKeys}
use litedoge_js.Script.Exec
use litedoge_js.Script.Bytes.{compile, from_raw_script}
use litedoge_js.Script.Bytes.Roundtrip.{from_raw_script-compile}
use litedoge_js.Script.Verify.{Script, verify_script, is_scripthash, check_true}
use litedoge_js.Script.Verify.Redeem.{scripthash_code, verify_script-redeem}
use litedoge_js.Script.Op.{is_push_only}
use litedoge_js.Script.Exec.{State, start, step, run, execute, max_script_size}
use litedoge_js.Script.Exec.Bounds.{IsValid}
use litedoge_js.Script.Exec.Final.{execute-IsValid}
use litedoge_js.Script.Exec.Dead.{step-SameStacks}

abbrev flags : Flags
flags = record {
  p2sh = true;
  strictenc = false;
  dersig = false;
  low_s = false;
  nulldummy = true;
  sigpushonly = false;
  minimaldata = true;
  discourage_upgradable_nops = true;
  cleanstack = true;
  checklocktimeverify = true;
  checksequenceverify = true;
  minimalif = true;
  nullfail = true;
  const_scriptcode = true;
}

-- A signature is good for the key that equals it, less its type.
abbrev crypto : Crypto
crypto = record {
  ripemd160 = λ x. x;
  sha1 = λ x. x;
  sha256 = λ x. x;
  hash160 = λ x. x;
  hash256 = λ x. x;
  is_low_der = λ x. true;
  verify_der = λ msg sig key. eq_bytes sig key;
  signature_hash = λ code type version. [];
}

abbrev env : Env
env = record {
  flags = flags;
  tx = some (record { version = 2; locktime = 100; sequence = 0 });
  version = 0;
  crypto = crypto;
}

-- 1 IF 2 3 ADD ELSE 7 ENDIF
abbrev branching : List Op
branching =
    op 0x51 none
    ∷ op 0x63 none
    ∷ op 0x52 none
    ∷ op 0x53 none
    ∷ op 0x93 none
    ∷ op 0x67 none
    ∷ op 0x57 none
    ∷ op 0x68 none
    ∷ []

branching_runs : execute env 8 branching [] ≡ ok ((5 ∷ []) ∷ [])
unfolding execute Exec.run_op Exec.switch Exec.stack_op Exec.check_stack_size Exec.op_if to_bool
    encode ◌-ℤ◌ binary_op decode Exec.op_else Exec.op_endif binary ◌+ℤ◌
branching_runs = refl

-- 0 sig₁ sig₂ 2 key₁ key₂ key₃ 3 CHECKMULTISIG, with the signatures of the first and third key
abbrev signatures : Stack
signatures =
    (3 ∷ []) ∷ (9 ∷ []) ∷ (8 ∷ []) ∷ (7 ∷ []) ∷ (2 ∷ []) ∷ (9 ∷ 1 ∷ []) ∷ (7 ∷ 1 ∷ []) ∷ [] ∷ []

multisig_runs : execute env 1 (op 0xae none ∷ []) signatures ≡ ok ((1 ∷ []) ∷ [])
unfolding execute Exec.run_op Exec.switch checkmultisig decode validate_signature validate_key
    check_sig Exec.check_stack_size encode
multisig_runs = refl

decode-encode_example : decode (encode (negsuc 999)) true 4 ≡ ok (negsuc 999)
decode-encode_example = decode-encode (negsuc 999) true 3 (omega arith, omega arith)

binary_op-encode_example :
    let a = negsuc 4 in
    let b = pos 300 in
    let run = λ (v : ℕ). binary_op true v (encode b ∷ encode a ∷ []) in
    (run Code.op_add ≡ ok (encode (a +ℤ b) ∷ []))
    × (run Code.op_sub ≡ ok (encode (a -ℤ b) ∷ []))
    × Tells ((a ≢ pos 0) × (b ≢ pos 0)) [] (run Code.op_booland)
    × Tells ((a ≢ pos 0) ⊎ (b ≢ pos 0)) [] (run Code.op_boolor)
    × Tells (a ≡ b) [] (run Code.op_numequal)
    × Tells (a ≢ b) [] (run Code.op_numnotequal)
    × Tells (IsLess a b) [] (run Code.op_lessthan)
    × Tells (IsLess b a) [] (run Code.op_greaterthan)
    × Tells (a ≤ℤ b) [] (run Code.op_lessthanorequal)
    × Tells (b ≤ℤ a) [] (run Code.op_greaterthanorequal)
    × ((r : ℤ) × IsLeast a b r × (run Code.op_min ≡ ok (encode r ∷ [])))
    × ((r : ℤ) × IsGreatest a b r × (run Code.op_max ≡ ok (encode r ∷ [])))
    × (((a ≡ b) × (run Code.op_numequalverify ≡ ok []))
        ⊎ ((a ≢ b) × (run Code.op_numequalverify ≡ error numequalverify)))
binary_op-encode_example =
    binary_op-encode true (negsuc 4) (pos 300) [] (omega arith, omega arith)
      (omega arith, omega arith)

abbrev three_items : Stack
three_items = (1 ∷ []) ∷ (2 ∷ []) ∷ (3 ∷ []) ∷ []

pick-encode_example :
    (pick true false (encode (pos 1) ∷ three_items) ≡ ok ((2 ∷ []) ∷ three_items))
    × (pick true true (encode (pos 1) ∷ three_items)
        ≡ ok ((2 ∷ []) ∷ take 1 three_items ++ drop (1 + 1) three_items))
pick-encode_example = pick-encode true 1 (2 ∷ []) three_items (omega arith) refl

shuffle_op_lem_example :
    let a : Bytes = 1 ∷ [] in
    let b : Bytes = [] in
    let c : Bytes = 3 ∷ [] in
    let d : Bytes = 4 ∷ [] in
    (shuffle_op true Code.op_2drop (a ∷ b ∷ []) ≡ ok [])
    × (shuffle_op true Code.op_2dup (a ∷ b ∷ []) ≡ ok (a ∷ b ∷ a ∷ b ∷ []))
    × (shuffle_op true Code.op_3dup (a ∷ b ∷ c ∷ []) ≡ ok (a ∷ b ∷ c ∷ a ∷ b ∷ c ∷ []))
    × (shuffle_op true Code.op_2over (a ∷ b ∷ c ∷ d ∷ []) ≡ ok (c ∷ d ∷ a ∷ b ∷ c ∷ d ∷ []))
    × (shuffle_op true Code.op_2rot (a ∷ b ∷ c ∷ d ∷ b ∷ c ∷ []) ≡ ok (b ∷ c ∷ a ∷ b ∷ c ∷ d ∷ []))
    × (shuffle_op true Code.op_2swap (a ∷ b ∷ c ∷ d ∷ []) ≡ ok (c ∷ d ∷ a ∷ b ∷ []))
    × (shuffle_op true Code.op_drop (a ∷ []) ≡ ok [])
    × (shuffle_op true Code.op_dup (a ∷ []) ≡ ok (a ∷ a ∷ []))
    × (shuffle_op true Code.op_nip (a ∷ b ∷ []) ≡ ok (a ∷ []))
    × (shuffle_op true Code.op_over (a ∷ b ∷ []) ≡ ok (b ∷ a ∷ b ∷ []))
    × (shuffle_op true Code.op_rot (a ∷ b ∷ c ∷ []) ≡ ok (c ∷ a ∷ b ∷ []))
    × (shuffle_op true Code.op_swap (a ∷ b ∷ []) ≡ ok (b ∷ a ∷ []))
    × (shuffle_op true Code.op_tuck (a ∷ b ∷ []) ≡ ok (a ∷ b ∷ a ∷ []))
shuffle_op_lem_example = shuffle_op_lem true (1 ∷ []) [] (3 ∷ []) (4 ∷ []) [] (3 ∷ []) []

match_runs : match_sigs env [] signatures 3 2 6 2 ≡ ok true
unfolding match_sigs validate_signature validate_key check_sig
match_runs = refl

match_sigs-HaveKeys_example : (true ≡ true) ↔ HaveKeys env [] signatures 3 2 6 2
match_sigs-HaveKeys_example =
    match_sigs-HaveKeys env [] signatures 3 2 6 2 true (omega arith) match_runs

execute-IsValid_example :
    (s : State) × (run env branching 0 branching (start []) ≡ ok s)
    × (s.stack ≡ (5 ∷ []) ∷ [])
    × IsValid s
    × (s.branches ≡ [])
    × (s.negate ≡ 0)
    × (8 ≤ max_script_size)
execute-IsValid_example =
    execute-IsValid env 8 branching [] ((5 ∷ []) ∷ []) branching_runs (omega arith)

abbrev dead : State
dead = record {
  stack = three_items;
  alt = [];
  branches = false ∷ [];
  negate = 1;
  op_count = 1;
  last_sep = 0;
}

abbrev dead_next : State
dead_next = record dead { op_count = 2 }

dead_steps : step env branching 2 (op 0x93 none) dead ≡ ok dead_next
unfolding step Exec.check_stack_size
dead_steps = refl

step-SameStacks_example :
    (dead_next.stack ≡ dead.stack)
    × (dead_next.alt ≡ dead.alt)
    × (dead_next.last_sep ≡ dead.last_sep)
step-SameStacks_example =
    step-SameStacks env branching 2 0x93 none dead dead_next dead_steps (λ b. refl) (omega arith)
      (omega arith)

abbrev three_ops : List Op
three_ops = op 0x02 (some (7 ∷ 8 ∷ [])) ∷ op 0x00 none ∷ op 0xac none ∷ []

from_raw_script-compile_example :
    (bytes : Bytes) × (compile three_ops ≡ some bytes) × (from_raw_script bytes ≡ three_ops)
from_raw_script-compile_example =
    from_raw_script-compile three_ops
      (inl (omega arith, omega arith, refl), (inl refl, (inr (omega arith), tt)))

-- The redeem script is twenty bytes that end in OP_1, and its own hash here.
abbrev redeem : Bytes
redeem =
    0x61 ∷ 0x61 ∷ 0x61 ∷ 0x61 ∷ 0x61 ∷ 0x61 ∷ 0x61 ∷ 0x61 ∷ 0x61 ∷ 0x61 ∷ 0x61 ∷ 0x61 ∷ 0x61 ∷ 0x61
    ∷ 0x61 ∷ 0x61 ∷ 0x61 ∷ 0x61 ∷ 0x61 ∷ 0x51 ∷ []

abbrev spending : Script
spending = record { raw = 0x14 ∷ redeem; code = op 0x14 (some redeem) ∷ [] }

abbrev paying : Script
paying = record { raw = 0xa9 ∷ 0x14 ∷ (redeem ++ (0x87 ∷ [])); code = scripthash_code redeem }

spending_verifies : verify_script env spending paying ≡ ok tt
unfolding verify_script execute Exec.run_op Exec.push_data Exec.check_stack_size Exec.switch
    Exec.stack_op hash equal to_bool encode is_push_only ◌-ℤ◌
spending_verifies = refl

paying_is_scripthash : is_scripthash paying.raw ≡ true
unfolding is_scripthash
paying_is_scripthash = refl

verify_script-redeem_example :
    (raw : Bytes) × (rest : Stack) × (st : Stack) × (is_push_only spending.code ≡ true)
    × (execute env (length spending.raw) spending.code [] ≡ ok (raw ∷ rest))
    × (env.crypto.hash160 raw ≡ redeem)
    × (execute env (length raw) (from_raw_script raw) rest ≡ ok st)
    × (check_true st ≡ ok tt)
verify_script-redeem_example =
    verify_script-redeem env spending paying redeem spending_verifies refl paying_is_scripthash refl
