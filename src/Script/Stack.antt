-- ===== src/Script/Stack.antt =====
-- lib/script/stack.js: stacks, with the top first. The code counts elements from the top by
-- negative indices: its index -k is `k` here.
use litedoge_js.Prelude.{
  ℕ, zero, suc, ◌-◌, Bool, true, false, ◌||◌, none, some, List, [], ◌∷◌, ◌++◌, ◌==◌, get_elem?,
  take, drop, if◌then◌else◌,
}
use litedoge_js.Prelude.Int.{ℤ, pos}
use litedoge_js.Script.Result.{Bytes, Result, ok, item, ◌>>=◌}
use litedoge_js.Script.Num.{encode, decode}

abbrev pub Stack : Type 0
Stack = List Bytes

unfoldable pub get : ℕ → Stack → Result Bytes
get k st = item (get_elem? st (k - 1))

unfoldable pub pop : Stack → Stack
pop st = drop 1 st

unfoldable pub push : Bytes → Stack → Stack
push x st = x ∷ st

-- `remove(-k)`.
unfoldable pub remove : ℕ → Stack → Stack
remove k st = take (k - 1) st ++ drop k st

-- `insert(-k, x)`: below the upper `k` elements.
unfoldable pub insert : ℕ → Bytes → Stack → Stack
insert k x st = take k st ++ (x ∷ drop k st)

-- `erase(-k, -j)`, for j ≤ k.
unfoldable pub erase : ℕ → ℕ → Stack → Stack
erase k j st = take j st ++ drop k st

abbrev pub set_elem : ℕ → Bytes → Stack → Stack
set_elem i x [] = []
set_elem zero x (y ∷ st) = x ∷ st
set_elem (suc i) x (y ∷ st) = y ∷ set_elem i x st

-- `swap(-k, -j)`.
unfoldable pub swap : ℕ → ℕ → Stack → Result Stack
unfolding get
swap k j st = do a ← get k st; b ← get j st; ok (set_elem (k - 1) b (set_elem (j - 1) a st))

-- No zero byte, or the sign bit of a zero in the last byte.
unfoldable pub to_bool : Bytes → Bool
to_bool [] = false
to_bool (b ∷ []) = if b == 0 || b == 0x80 then false else true
to_bool (b ∷ c ∷ bs) = let rest = to_bool (c ∷ bs) in if b == 0 then rest else true

-- `fromInt`, whose table of small numbers holds their encodings.
unfoldable pub push_int : ℤ → Stack → Stack
unfolding push
push_int n st = push (encode n) st

unfoldable pub push_bool : Bool → Stack → Stack
unfolding push_int
push_bool b st = push_int (if b then pos 1 else pos 0) st

-- `getNum(-k, minimal, limit)`. `getInt` then casts to 32 bits, which keeps four bytes' numbers.
unfoldable pub get_num : ℕ → Bool → ℕ → Stack → Result ℤ
unfolding get
get_num k minimal limit st = do x ← get k st; decode x minimal limit

-- `getBool(-k)`: false where there is no element.
unfoldable pub get_bool : ℕ → Stack → Bool
get_bool k st = elim (get_elem? st (k - 1)) [ none ↦ false | some x ↦ to_bool x ]
