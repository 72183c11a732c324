-- ===== src/Script/Op.antt =====
-- lib/script/opcode.js: opcodes, and scripts as lists of them.
use litedoge_js.Prelude.{
  ℕ, suc, Bool, true, false, ◌&&◌, ◌||◌, Option, none, some, List, [], ◌∷◌, leb, ◌==◌, length,
  if◌then◌else◌,
}
use litedoge_js.Script.Code
use litedoge_js.Script.Result.{Bytes}

-- `invalid` is the opcode with the value -1, which the parser makes of a push past the end.
pub data Op : Type 0 where
  invalid : Op
  op : ℕ → Option Bytes → Op

abbrev pub eq_bytes : Bytes → Bytes → Bool
eq_bytes [] [] = true
eq_bytes [] (c ∷ cs) = false
eq_bytes (b ∷ bs) [] = false
eq_bytes (b ∷ bs) (c ∷ cs) = b == c && eq_bytes bs cs

abbrev pub eq_data : Option Bytes → Option Bytes → Bool
eq_data none none = true
eq_data none (some c) = false
eq_data (some b) none = false
eq_data (some b) (some c) = eq_bytes b c

-- `equals`. Opcodes that agree in the value agree in whether they have data, or an assertion fails.
unfoldable pub equals : Op → Op → Bool
equals invalid invalid = true
equals invalid (op w e) = false
equals (op v d) invalid = false
equals (op v d) (op w e) = v == w && eq_data d e

-- The byte of a one-byte push that a small number's opcode should have written.
has_small_opcode : Bytes → Bool
has_small_opcode [] = false
has_small_opcode (b ∷ []) = b == 0x81 || leb 1 b && leb b 16
has_small_opcode (b ∷ c ∷ bs) = false

-- `isMinimal` of an opcode with data. The assertion for data over 65535 bytes is taken as a test.
unfoldable pub is_minimal_push : ℕ → Bytes → Bool
unfolding has_small_opcode
is_minimal_push v bytes =
    if has_small_opcode bytes
    then false
    else if leb (length bytes) 0x4b
    then v == length bytes
    else if leb (length bytes) 0xff
    then v == Code.op_pushdata1
    else if leb (length bytes) 0xffff
    then v == Code.op_pushdata2
    else v == Code.op_pushdata4

unfoldable pub is_disabled : ℕ → Bool
is_disabled v =
    leb Code.op_cat v && leb v Code.op_right
    || leb Code.op_invert v && leb v Code.op_xor
    || v == Code.op_2mul
    || v == Code.op_2div
    || leb Code.op_mul v && leb v Code.op_rshift

unfoldable pub is_branch : ℕ → Bool
is_branch v = leb Code.op_if v && leb v Code.op_endif

-- `fromPush`, for data that a stack can hold.
unfoldable pub from_push : Bytes → Op
from_push bytes =
    if length bytes == 0
    then op Code.op_0 none
    else if leb (length bytes) 0x4b
    then op (length bytes) (some bytes)
    else if leb (length bytes) 0xff
    then op Code.op_pushdata1 (some bytes)
    else if leb (length bytes) 0xffff
    then op Code.op_pushdata2 (some bytes)
    else op Code.op_pushdata4 (some bytes)

unfoldable pub is_push_only : List Op → Bool
is_push_only [] = true
is_push_only (invalid ∷ code) = false
is_push_only (op v d ∷ code) = leb v Code.op_16 && is_push_only code

-- The opcodes before the first invalid one.
unfoldable pub until_invalid : List Op → List Op
until_invalid [] = []
until_invalid (invalid ∷ code) = []
until_invalid (op v d ∷ code) = op v d ∷ until_invalid code

-- `findAndDelete` without its early return for a script that is too short to hold the push: the
-- rest of the code, and the number of pushes deleted. A script without one is kept as it is.
delete_all : Op → List Op → List Op × ℕ
unfolding equals
delete_all target [] = ([], 0)
delete_all target (x ∷ code) =
    let (rest, n) = delete_all target code in
    if equals x target then (rest, suc n) else ((x ∷ rest), n)

unfoldable pub find_and_delete : Bytes → List Op → List Op × ℕ
unfolding from_push until_invalid delete_all
find_and_delete sig code =
    let (rest, n) = delete_all (from_push sig) (until_invalid code) in
    if n == 0 then (code, 0) else (rest, n)
