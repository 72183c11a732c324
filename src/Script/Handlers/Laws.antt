-- ===== src/Script/Handlers/Laws.antt =====
-- lib/script/script.js: the stack effects of the shuffling opcodes.
use litedoge_js.Prelude.{
  ℕ, zero, suc, ◌-◌, ◌∙◌, ◌+◌, ◌<◌, ◌≡◌, Bool, true, false, some, [], ◌∷◌, ◌++◌, arith, ltb, leb,
  length, get_elem?, take, drop, if◌then◌else◌,
}
use litedoge_js.Prelude.Int.{ℤ, pos}
use litedoge_js.Script.Result.{Bytes, ok}
use litedoge_js.Script.Code
use litedoge_js.Script.Num.{encode}
use litedoge_js.Script.Num.Roundtrip.{Fits, decode-encode}
use litedoge_js.Script.Stack.{Stack, get, pop, push, remove, get_num}
use litedoge_js.Script.Handlers.Shuffle.{
  shuffle_op, drop2, dup2, dup3, over2, rot2, swap2, drop1, dup, nip, over, pick, pick_at, rot,
  swap1, tuck,
}

-- The opcodes that drop, copy or move a fixed number of elements, OP_DROP among them, have the stack
-- effects that their names say; the top of a stack is written first.
pub shuffle_op_lem :
    (minimal : Bool) (a b c d x y : Bytes) (st : Stack)
    → (shuffle_op minimal Code.op_2drop (a ∷ b ∷ st) ≡ ok st)
      × (shuffle_op minimal Code.op_2dup (a ∷ b ∷ st) ≡ ok (a ∷ b ∷ a ∷ b ∷ st))
      × (shuffle_op minimal Code.op_3dup (a ∷ b ∷ c ∷ st) ≡ ok (a ∷ b ∷ c ∷ a ∷ b ∷ c ∷ st))
      × (shuffle_op minimal Code.op_2over (a ∷ b ∷ c ∷ d ∷ st) ≡ ok (c ∷ d ∷ a ∷ b ∷ c ∷ d ∷ st))
      × (shuffle_op minimal Code.op_2rot (a ∷ b ∷ c ∷ d ∷ x ∷ y ∷ st)
          ≡ ok (x ∷ y ∷ a ∷ b ∷ c ∷ d ∷ st))
      × (shuffle_op minimal Code.op_2swap (a ∷ b ∷ c ∷ d ∷ st) ≡ ok (c ∷ d ∷ a ∷ b ∷ st))
      × (shuffle_op minimal Code.op_drop (a ∷ st) ≡ ok st)
      × (shuffle_op minimal Code.op_dup (a ∷ st) ≡ ok (a ∷ a ∷ st))
      × (shuffle_op minimal Code.op_nip (a ∷ b ∷ st) ≡ ok (a ∷ st))
      × (shuffle_op minimal Code.op_over (a ∷ b ∷ st) ≡ ok (b ∷ a ∷ b ∷ st))
      × (shuffle_op minimal Code.op_rot (a ∷ b ∷ c ∷ st) ≡ ok (c ∷ a ∷ b ∷ st))
      × (shuffle_op minimal Code.op_swap (a ∷ b ∷ st) ≡ ok (b ∷ a ∷ st))
      × (shuffle_op minimal Code.op_tuck (a ∷ b ∷ st) ≡ ok (a ∷ b ∷ a ∷ st))
unfolding shuffle_op drop2 dup2 dup3 over2 rot2 swap2 drop1 dup nip over rot swap1 tuck
shuffle_op_lem minimal a b c d x y st = (
  ground arith,
  ground arith,
  ground arith,
  ground arith,
  ground arith,
  ground arith,
  ground arith,
  ground arith,
  ground arith,
  ground arith,
  ground arith,
  ground arith,
  ground arith,
)

pub get_num-encode :
    (n : ℤ) (minimal : Bool) (st : Stack) → Fits 3 n → get_num 1 minimal 4 (encode n ∷ st) ≡ ok n
unfolding get_num get
get_num-encode n minimal st h = decode-encode n minimal 3 h

pub get_num-encode₂ :
    (n : ℤ) (minimal : Bool) (x : Bytes) (st : Stack)
    → Fits 3 n
    → get_num 2 minimal 4 (x ∷ encode n ∷ st) ≡ ok n
unfolding get_num get
get_num-encode₂ n minimal x st h = decode-encode n minimal 3 h

get_elem?-lt : (st : Stack) (n : ℕ) (x : Bytes) → get_elem? st n ≡ some x → n < length st
get_elem?-lt [] n x e = cc e
get_elem?-lt (y ∷ st) zero x e = omega arith
get_elem?-lt (y ∷ st) (suc n) x e = omega (arith, get_elem?-lt st n x e)

minus_one : (n : ℕ) → n + 1 - 1 ≡ n
minus_one n = omega arith

get-some : (st : Stack) (n : ℕ) (x : Bytes) → get_elem? st n ≡ some x → get (n + 1) st ≡ ok x
unfolding get
get-some st n x e = rw (minus_one n, e)

remove-take : (st : Stack) (n : ℕ) → remove (n + 1) st ≡ take n st ++ drop (n + 1) st
unfolding remove
remove-take st n = rw (minus_one n)

pick_at-some :
    (roll : Bool) (st : Stack) (n : ℕ) (x : Bytes)
    → get_elem? st n ≡ some x
    → pick_at roll (pos n) st ≡ ok (x ∷ (if roll then take n st ++ drop (n + 1) st else st))
unfolding pick_at push
pick_at-some roll st n x e =
    let room : leb (length st) n ≡ false = ground (arith, get_elem?-lt st n x e) in
    rw (room, get-some st n x e, remove-take st n)

pick_lem :
    (minimal roll : Bool) (n : ℕ) (st : Stack)
    → n < 0x8000_0000
    → n < length st
    → pick minimal roll (encode (pos n) ∷ st) ≡ pick_at roll (pos n) st
unfolding pick pop
pick_lem minimal roll n st h k =
    let enough : ltb (suc (length st)) 2 ≡ false = ground arith in
    rw (enough, get_num-encode (pos n) minimal st (omega arith, omega (arith, h)))

-- OP_PICK copies and OP_ROLL moves the element that the encoded number on top counts to,
-- for a number below 2^31 and an element that is there.
pub pick-encode :
    (minimal : Bool) (n : ℕ) (x : Bytes) (st : Stack)
    → n < 0x8000_0000
    → get_elem? st n ≡ some x
    → (pick minimal false (encode (pos n) ∷ st) ≡ ok (x ∷ st))
      × (pick minimal true (encode (pos n) ∷ st) ≡ ok (x ∷ take n st ++ drop (n + 1) st))
pick-encode minimal n x st h e =
    let k = get_elem?-lt st n x e in
    (
      pick_lem minimal false n st h k ∙ pick_at-some false st n x e,
      pick_lem minimal true n st h k ∙ pick_at-some true st n x e,
    )
