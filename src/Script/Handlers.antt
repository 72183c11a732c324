-- ===== src/Script/Handlers.antt =====
-- lib/script/script.js: the cases of the switch in `execute` that touch the stack only, and what
-- an execution reads.
pub mod Shuffle
pub mod Arith
pub mod Sigs
pub mod Laws
pub mod Numbers
pub mod Multisig
use litedoge_js.Prelude.{ℕ, Bool, Option, List}
use litedoge_js.Script.Result.{Bytes}
use litedoge_js.Script.Op.{Op}
use litedoge_js.Script.Checks.{Flags, Spending}

-- The packages that the interpreter calls, and `tx.signatureHash(index, subscript, type, version)`.
pub record Crypto : Type 0 where
  pub ripemd160 : Bytes → Bytes
  pub sha1 : Bytes → Bytes
  pub sha256 : Bytes → Bytes
  pub hash160 : Bytes → Bytes
  pub hash256 : Bytes → Bytes
  pub is_low_der : Bytes → Bool
  pub verify_der : Bytes → Bytes → Bytes → Bool
  pub signature_hash : List Op → ℕ → ℕ → Bytes

-- The arguments of `execute`. `tx` is what the locktime opcodes read, where a transaction is given;
-- `version` is that of the signature hash.
pub record Env : Type 0 where
  pub flags : Flags
  pub tx : Option Spending
  pub version : ℕ
  pub crypto : Crypto
