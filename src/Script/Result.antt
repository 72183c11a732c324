-- ===== src/Script/Result.antt =====
-- lib/script/scripterror.js: the codes of script errors, and runs that end in one.
use litedoge_js.Prelude.{◌≡◌, refl, ◌⊎◌, inl, inr, ℕ, Bool, true, false, List, Option, none, some}

abbrev pub Bytes : Type 0
Bytes = List ℕ

-- `verify` is the code VERIFY and `op_limit` is OP_COUNT. `exception` is an error of JavaScript
-- that is no `ScriptError`.
pub data ScriptError : Type 0 where
  script_size bad_opcode push_size op_limit disabled_opcode op_codeseparator : ScriptError
  stack_size minimaldata unknown_error invalid_stack_operation : ScriptError
  invalid_altstack_operation negative_locktime unsatisfied_locktime : ScriptError
  discourage_upgradable_nops unbalanced_conditional minimalif verify op_return : ScriptError
  equalverify numequalverify sig_findanddelete nullfail checksigverify : ScriptError
  pubkey_count sig_count sig_nulldummy checkmultisigverify : ScriptError
  sig_der sig_high_s sig_hashtype pubkeytype sig_pushonly eval_false cleanstack : ScriptError
  exception : ScriptError

pub data Result {ℓ} (A : Type ℓ) : Type ℓ where
  ok : A → Result A
  error : ScriptError → Result A

infixl 5 ◌>>=◌ ◌>>◌
abbrev pub ◌>>=◌ {ℓ κ} : {A : Type ℓ} {B : Type κ} → Result A → (A → Result B) → Result B
ok a >>= f = f a
error e >>= f = error e

abbrev pub ◌>>◌ {ℓ} : {B : Type ℓ} → Result (Unit {0}) → Result B → Result B
m >> k = m >>= λ _. k

-- `if (condition) throw new ScriptError(e)`.
abbrev pub throw_if : Bool → ScriptError → Result (Unit {0})
throw_if true e = error e
throw_if false e = ok tt

-- An element that the code reads without a test.
abbrev pub item {ℓ} : {A : Type ℓ} → Option A → Result A
item none = error exception
item (some a) = ok a

pub Result-cases {ℓ} :
    {A : Type ℓ} (r : Result A) → ((a : A) × (r ≡ ok a)) ⊎ ((x : ScriptError) × (r ≡ error x))
Result-cases (ok a) = inl (a, refl)
Result-cases (error x) = inr (x, refl)

pub ok_injective {ℓ} : {A : Type ℓ} (a b : A) → ok a ≡ ok b → a ≡ b
ok_injective a b h = cc h
