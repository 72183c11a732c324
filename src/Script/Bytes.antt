-- ===== src/Script/Bytes.antt =====
-- lib/script/opcode.js and script.js: scripts as bytes. `bw` and `br` are the writer and the
-- reader of a package, whose integers are little-endian.
pub mod Roundtrip
use litedoge_js.Prelude.{
  ℕ, zero, suc, ◌+◌, ◌*◌, ◌/◌, ◌%◌, not, ◌&&◌, Option, none, some, List, [], ◌∷◌, ◌++◌, ltb, leb,
  ◌==◌, length, take, drop, if◌then◌else◌,
}
use litedoge_js.Script.Code
use litedoge_js.Script.Result.{Bytes}
use litedoge_js.Script.Op.{Op, invalid, op}

-- An integer of `k` bytes, lowest first.
unfoldable pub write_int : ℕ → ℕ → Bytes
write_int zero n = []
write_int (suc k) n = (n % 256) ∷ write_int k (n / 256)

unfoldable pub read_int : Bytes → ℕ
read_int [] = 0
read_int (b ∷ bs) = b + 256 * read_int bs

-- The size of the length of a push, by its opcode.
unfoldable pub length_size : ℕ → ℕ
length_size v =
    if v == Code.op_pushdata1
    then 1
    else if v == Code.op_pushdata2
    then 2
    else if v == Code.op_pushdata4
    then 4
    else 0

-- `toWriter`; `none` is an exception.
unfoldable pub write_op : Op → Option Bytes
unfolding write_int length_size
write_op invalid = none
write_op (op v none) = some (v ∷ [])
write_op (op v (some bytes)) =
    if length_size v == 0 && not (v == length bytes)
    then none
    else some (v ∷ write_int (length_size v) (length bytes) ++ bytes)

-- `compile`: the writers of the opcodes in turn.
unfoldable pub compile : List Op → Option Bytes
unfolding write_op
compile [] = some []
compile (o ∷ code) = elim (write_op o) [
  | none ↦ none
  | some bytes ↦ elim (compile code) [ none ↦ none | some rest ↦ some (bytes ++ rest) ]
]

-- `fromReader`, behind the byte `v`: the opcode and what is left. A push past the end takes the
-- rest, but for a PUSHDATA1 without a length, which takes nothing where nothing is left.
read_push : ℕ → ℕ → Bytes → Op × Bytes
read_push v n rest =
    if ltb (length rest) n then (invalid, []) else (op v (some (take n rest)), drop n rest)

unfoldable pub read_op : ℕ → Bytes → Op × Bytes
unfolding length_size read_int read_push
read_op v rest =
    let k = length_size v in
    if leb 1 v && leb v 0x4b
    then read_push v v rest
    else if k == 0
    then (op v none, rest)
    else if ltb (length rest) k
    then (invalid, [])
    else read_push v (read_int (take k rest)) (drop k rest)

-- The loop of `fromRaw`. Every round reads a byte at least, so the length of the data is enough
-- fuel.
unfoldable pub read_code : ℕ → Bytes → List Op
unfolding read_op
read_code zero bytes = []
read_code (suc fuel) [] = []
read_code (suc fuel) (v ∷ bytes) = let (o, rest) = read_op v bytes in o ∷ read_code fuel rest

unfoldable pub from_raw_script : Bytes → List Op
unfolding read_code
from_raw_script bytes = read_code (length bytes) bytes
