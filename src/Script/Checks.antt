-- ===== src/Script/Checks.antt =====
-- lib/script/script.js, common.js and lib/primitives/tx.js: the checks that the signature and the
-- locktime opcodes call. A byte is read at an index inside the data, as the lengths tested before
-- guarantee.
use litedoge_js.Prelude.{
  ℕ, ◌+◌, ◌-◌, ◌/◌, ◌%◌, Bool, true, false, not, ◌&&◌, ◌||◌, none, some, ltb, leb, ◌==◌, length,
  get_elem?, take, if◌then◌else◌,
}
use litedoge_js.Script.Result.{
  Bytes, Result, ok, throw_if, ◌>>◌, sig_der, sig_high_s, sig_hashtype, pubkeytype,
}

-- The bits of the flags that the interpreter reads.
pub record Flags : Type 0 where
  pub p2sh : Bool
  pub strictenc : Bool
  pub dersig : Bool
  pub low_s : Bool
  pub nulldummy : Bool
  pub sigpushonly : Bool
  pub minimaldata : Bool
  pub discourage_upgradable_nops : Bool
  pub cleanstack : Bool
  pub checklocktimeverify : Bool
  pub checksequenceverify : Bool
  pub minimalif : Bool
  pub nullfail : Bool
  pub const_scriptcode : Bool

abbrev pub at : ℕ → Bytes → ℕ
at i bytes = elim (get_elem? bytes i) [ none ↦ 0 | some b ↦ b ]

-- `isHashType`: `& ~0x80` clears the top bit.
unfoldable pub is_hash_type : Bytes → Bool
is_hash_type sig =
    let type = at (length sig - 1) sig % 0x80 in not (length sig == 0) && leb 1 type && leb type 3

unfoldable pub is_key_encoding : Bytes → Bool
is_key_encoding key =
    if ltb (length key) 33
    then false
    else if at 0 key == 0x04
    then length key == 65
    else if at 0 key == 0x02 || at 0 key == 0x03
    then length key == 33
    else false

unfoldable pub is_signature_encoding : Bytes → Bool
is_signature_encoding sig =
    let len = length sig in
    let len_r = at 3 sig in
    let len_s = at (5 + len_r) sig in
    if ltb len 9
    then false
    else if ltb 73 len
    then false
    else if not (at 0 sig == 0x30)
    then false
    else if not (at 1 sig == len - 3)
    then false
    else if leb len (5 + len_r)
    then false
    else if not (len_r + len_s + 7 == len)
    then false
    else if not (at 2 sig == 0x02)
    then false
    else if len_r == 0
    then false
    else if leb 0x80 (at 4 sig)
    then false
    else if ltb 1 len_r && at 4 sig == 0 && ltb (at 5 sig) 0x80
    then false
    else if not (at (len_r + 4) sig == 0x02)
    then false
    else if len_s == 0
    then false
    else if leb 0x80 (at (len_r + 6) sig)
    then false
    else if ltb 1 len_s && at (len_r + 6) sig == 0 && ltb (at (len_r + 7) sig) 0x80
    then false
    else true

-- `sig.slice(0, -1)`.
abbrev pub without_type : Bytes → Bytes
without_type sig = take (length sig - 1) sig

-- `is_low_der` is `secp256k1.isLowDER`.
unfoldable pub validate_signature : (Bytes → Bool) → Bytes → Flags → Result (Unit {0})
unfolding is_signature_encoding is_hash_type
validate_signature is_low_der sig flags = if length sig == 0 then ok tt else do
  throw_if ((flags.dersig || flags.low_s || flags.strictenc) && not (is_signature_encoding sig))
      sig_der
  throw_if (flags.low_s && not (is_signature_encoding sig && is_low_der (without_type sig)))
      sig_high_s
  throw_if (flags.strictenc && not (is_hash_type sig)) sig_hashtype

unfoldable pub validate_key : Bytes → Flags → Result (Unit {0})
unfolding is_key_encoding
validate_key key flags = throw_if (flags.strictenc && not (is_key_encoding key)) pubkeytype

-- What the locktime opcodes read of the transaction and its input.
pub record Spending : Type 0 where
  pub version : ℕ
  pub locktime : ℕ
  pub sequence : ℕ

abbrev pub locktime_threshold : ℕ
locktime_threshold = 500_000_000

unfoldable pub verify_locktime : Spending → ℕ → Bool
verify_locktime tx predicate =
    if ltb tx.locktime locktime_threshold && leb locktime_threshold predicate
    then false
    else if leb locktime_threshold tx.locktime && ltb predicate locktime_threshold
    then false
    else if ltb tx.locktime predicate
    then false
    else if tx.sequence == 0xffff_ffff
    then false
    else true

-- A flag is a power of two: `n & flag` is not 0 where the bit is set.
abbrev pub has_bit : ℕ → ℕ → Bool
has_bit n flag = n / flag % 2 == 1

abbrev pub sequence_disable_flag : ℕ
sequence_disable_flag = 0x8000_0000

abbrev pub sequence_type_flag : ℕ
sequence_type_flag = 0x40_0000

unfoldable pub verify_sequence : Spending → ℕ → Bool
verify_sequence tx predicate =
    if has_bit predicate sequence_disable_flag
    then true
    else if ltb tx.version 2
    then false
    else if has_bit tx.sequence sequence_disable_flag
    then false
    else if not (tx.sequence / sequence_type_flag % 2 == predicate / sequence_type_flag % 2)
    then false
    else if ltb (tx.sequence % 0x1_0000) (predicate % 0x1_0000)
    then false
    else true
