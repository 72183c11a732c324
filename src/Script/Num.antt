-- ===== src/Script/Num.antt =====
-- lib/script/scriptnum.js: script numbers. The 64-bit integers of the class are exact on what the
-- interpreter makes: it reads numbers of at most five bytes, and adds or subtracts two of four.
pub mod Roundtrip
use litedoge_js.Prelude.{
  ℕ, zero, suc, ◌+◌, ◌-◌, ◌*◌, ◌/◌, ◌%◌, Bool, true, false, not, ◌&&◌, List, [], ◌∷◌,
}
use litedoge_js.Prelude.{ltb, leb, ◌==◌, length, if◌then◌else◌}
use litedoge_js.Prelude.Int.{ℤ, pos, negsuc, negate}
use litedoge_js.Script.Result.{Bytes, Result, ok, error, unknown_error, throw_if, ◌>>=◌, ◌>>◌}

-- The bytes of a magnitude, lowest first and without zeros on top: `k` is at least the size.
unfoldable pub to_bytes : ℕ → ℕ → Bytes
to_bytes zero m = []
to_bytes (suc k) m = if m == 0 then [] else ((m % 256) ∷ to_bytes k (m / 256))

-- The sign bit: the top bit of the last byte, or a byte of its own where that bit is taken.
unfoldable pub append_sign : Bool → Bytes → Bytes
append_sign neg [] = []
append_sign neg (b ∷ []) =
    let sign : ℕ = if neg then 0x80 else 0 in
    let taken : Bytes = b ∷ sign ∷ [] in
    let free : Bytes = (b + sign) ∷ [] in if leb 0x80 b then taken else free
append_sign neg (b ∷ c ∷ bs) = b ∷ append_sign neg (c ∷ bs)

-- `toRaw`.
unfoldable pub encode : ℤ → Bytes
unfolding to_bytes append_sign
encode (pos m) = append_sign false (to_bytes 8 m)
encode (negsuc m) = append_sign true (to_bytes 8 (suc m))

-- The top bit of the last byte.
unfoldable pub has_sign : Bytes → Bool
has_sign [] = false
has_sign (b ∷ []) = leb 0x80 b
has_sign (b ∷ c ∷ bs) = has_sign (c ∷ bs)

-- The number that the bytes write, less that bit.
unfoldable pub magnitude : Bytes → ℕ
magnitude [] = 0
magnitude (b ∷ []) = b % 0x80
magnitude (b ∷ c ∷ bs) = b + 256 * magnitude (c ∷ bs)

unfoldable pub from_bytes : Bytes → ℤ
unfolding has_sign magnitude
from_bytes bytes = if has_sign bytes then negate (pos (magnitude bytes)) else pos (magnitude bytes)

unfoldable pub is_minimal_num : Bytes → Bool
is_minimal_num [] = true
is_minimal_num (b ∷ []) = not (b % 0x80 == 0)
is_minimal_num (b ∷ c ∷ []) = not (c % 0x80 == 0 && ltb b 0x80)
is_minimal_num (b ∷ c ∷ d ∷ bs) = is_minimal_num (c ∷ d ∷ bs)

unfoldable pub decode : Bytes → Bool → ℕ → Result ℤ
unfolding from_bytes is_minimal_num
decode bytes minimal limit = do
  throw_if (ltb limit (length bytes)) unknown_error
  throw_if (minimal && not (is_minimal_num bytes)) unknown_error
  ok (from_bytes bytes)
