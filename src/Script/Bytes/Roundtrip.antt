-- ===== src/Script/Bytes/Roundtrip.antt =====
-- Scripts survive their serialisation.
use mathlib.Core.List.{append_assoc}
use litedoge_js.Prelude.{
  ℕ, zero, suc, ◌+◌, ◌*◌, ◌/◌, ◌^◌, ◌≤◌, ◌<◌, ◌≡◌, ◌⊎◌, inl, inr, refl, sym, ap, subst, ◌∙◌, true,
  false, ◌&&◌, none, some, List, [], ◌∷◌, ◌++◌, arith, ltb, leb, ◌==◌, length, take, drop, All,
  take-append, drop-append, length-append,
}
use litedoge_js.Script.Code
use litedoge_js.Script.Result.{Bytes}
use litedoge_js.Script.Op.{Op, invalid, op}
use litedoge_js.Script.Bytes.{
  write_int, read_int, length_size, write_op, compile, read_push, read_op, read_code,
  from_raw_script,
}

length-write_int : (k n : ℕ) → length (write_int k n) ≡ k
unfolding write_int
length-write_int zero n = refl
length-write_int (suc k) n = omega (arith, length-write_int k (n / 256))

read_int-write_int : (k n : ℕ) → n < 256 ^ k → read_int (write_int k n) ≡ n
unfolding write_int read_int
read_int-write_int zero n h = omega (arith, h)
read_int-write_int (suc k) n h =
    let step : 256 ^ suc k ≡ 256 * 256 ^ k = omega arith in
    omega (arith, read_int-write_int k (n / 256) (omega (arith, h, step)))

-- An opcode that a parser can have made: a byte with no data, which is no push, or a push whose
-- length its opcode can write.
abbrev pub IsParsed : Op → Type 0
IsParsed invalid = ⊥
IsParsed (op v none) = (v ≡ 0) ⊎ (Code.op_pushdata4 < v)
IsParsed (op v (some bytes)) =
    ((1 ≤ v) × (v ≤ 0x4b) × (length bytes ≡ v))
    ⊎ ((Code.op_pushdata1 ≤ v) × (v ≤ Code.op_pushdata4) × (length bytes < 256 ^ length_size v))

-- What an opcode is written as, and that reading it gives it back, with what follows.
abbrev WritesAs : Op → Bytes → Type 0
WritesAs o bytes =
    (v : ℕ) × (tail : Bytes) × (bytes ≡ v ∷ tail)
    × (write_op o ≡ some bytes)
    × ((rest : Bytes) → read_op v (tail ++ rest) ≡ (o, rest))

read_push-append :
    (v : ℕ) (bytes rest : Bytes)
    → read_push v (length bytes) (bytes ++ rest) ≡ (op v (some bytes), rest)
unfolding read_push
read_push-append v bytes rest =
    let enough : ltb (length (bytes ++ rest)) (length bytes) ≡ false =
      ground (arith, length-append bytes rest) in
    rw (enough, take-append bytes rest, drop-append bytes rest)

size-none : (v : ℕ) → (v ≡ 0) ⊎ (Code.op_pushdata4 < v) → length_size v ≡ 0
unfolding length_size
size-none v h = ground arith

size-direct : (v : ℕ) → v ≤ 0x4b → length_size v ≡ 0
unfolding length_size
size-direct v h = ground arith

size-push : (v : ℕ) → Code.op_pushdata1 ≤ v → v ≤ Code.op_pushdata4 → 1 ≤ length_size v
unfolding length_size
size-push v lo hi = ground arith

not_direct : (v : ℕ) → (v ≡ 0) ⊎ (0x4b < v) → (leb 1 v && leb v 0x4b) ≡ false
not_direct v h = ground arith

byte-WritesAs : (v : ℕ) → (v ≡ 0) ⊎ (Code.op_pushdata4 < v) → WritesAs (op v none) (v ∷ [])
unfolding write_op read_op
byte-WritesAs v h =
    let out : (leb 1 v && leb v 0x4b) ≡ false = ground arith in
    (v, [], refl, refl, λ rest. rw (out, size-none v h))

direct-WritesAs :
    (bytes : Bytes)
    → 1 ≤ length bytes
    → length bytes ≤ 0x4b
    → WritesAs (op (length bytes) (some bytes)) (length bytes ∷ bytes)
unfolding write_op read_op
direct-WritesAs bytes lo hi =
    let v = length bytes in
    let direct : (leb 1 (length bytes) && leb (length bytes) 0x4b) ≡ true = ground arith in
    let same : (length bytes == length bytes) ≡ true = ground arith in
    (v, bytes, refl, rw (size-direct v hi, same), λ rest. rw direct (read_push-append v bytes rest))

read_op-push :
    (v : ℕ) (head bytes rest : Bytes)
    → Code.op_pushdata1 ≤ v
    → v ≤ Code.op_pushdata4
    → length head ≡ length_size v
    → read_int head ≡ length bytes
    → read_op v (head ++ (bytes ++ rest)) ≡ (op v (some bytes), rest)
unfolding read_op
read_op-push v head bytes rest lo hi sized value =
    let x = bytes ++ rest in
    let out : (leb 1 v && leb v 0x4b) ≡ false = ground arith in
    let some_size : (length_size v == 0) ≡ false = ground (arith, size-push v lo hi) in
    let room : ltb (length (head ++ x)) (length_size v) ≡ false =
      ground (arith, length-append head x, sized) in
    let front = subst (λ k. take k (head ++ x) ≡ head) sized (take-append head x) in
    let back = subst (λ k. drop k (head ++ x) ≡ x) sized (drop-append head x) in
    rw (out, some_size, room, front, back, value) (read_push-append v bytes rest)

push-WritesAs :
    (v : ℕ) (bytes : Bytes)
    → Code.op_pushdata1 ≤ v
    → v ≤ Code.op_pushdata4
    → length bytes < 256 ^ length_size v
    → WritesAs (op v (some bytes)) (v ∷ write_int (length_size v) (length bytes) ++ bytes)
unfolding write_op read_op
push-WritesAs v bytes lo hi h =
    let head = write_int (length_size v) (length bytes) in
    let sized : (length_size v == 0) ≡ false = ground (arith, size-push v lo hi) in
    (
      v,
      head ++ bytes,
      refl,
      rw sized,
      λ rest.
          subst (λ l. read_op v l ≡ (op v (some bytes), rest)) (sym (append_assoc head bytes rest))
            (read_op-push v head bytes rest lo hi (length-write_int (length_size v) (length bytes))
              (read_int-write_int (length_size v) (length bytes) h)),
    )

written : (o : Op) → IsParsed o → (bytes : Bytes) × WritesAs o bytes
written invalid p = absurd p
written (op v none) p = (_, byte-WritesAs v p)
written (op v (some bytes)) (inl (lo, hi, e)) = (
  v ∷ bytes,
  subst (λ n. WritesAs (op n (some bytes)) (n ∷ bytes)) e
      (direct-WritesAs bytes (omega (arith, lo, e)) (omega (arith, hi, e))),
)
written (op v (some bytes)) (inr (lo, hi, h)) = (_, push-WritesAs v bytes lo hi h)

compile-cons :
    (o : Op) (code : List Op) (front back : Bytes)
    → write_op o ≡ some front
    → compile code ≡ some back
    → compile (o ∷ code) ≡ some (front ++ back)
unfolding compile
compile-cons o code front back w c = ground arith

read_code-nil : (fuel : ℕ) → read_code fuel [] ≡ []
unfolding read_code
read_code-nil zero = refl
read_code-nil (suc fuel) = refl

read_code-cons :
    (fuel v : ℕ) (tail : Bytes) (o : Op) (rest : Bytes)
    → read_op v tail ≡ (o, rest)
    → read_code (suc fuel) (v ∷ tail) ≡ o ∷ read_code fuel rest
unfolding read_code
read_code-cons fuel v tail o rest h = rw h

-- The first opcode is read back, and the fuel for its byte is there.
read_code_step :
    (o : Op) (code : List Op) (front back : Bytes) (fuel : ℕ)
    → WritesAs o front
    → ((f : ℕ) → length back ≤ f → read_code f back ≡ code)
    → length (front ++ back) ≤ fuel
    → read_code fuel (front ++ back) ≡ o ∷ code
read_code_step o code front back zero (v, tail, e, w, r) loop k =
    let long : length (front ++ back) ≡ length front + length back = length-append front back in
    let some_byte : length front ≡ suc (length tail) = ap (λ l. length l) e in
    absurd (omega (arith, long, some_byte, k))
read_code_step o code front back (suc fuel) (v, tail, e, w, r) loop k =
    let long : length (front ++ back) ≡ length front + length back = length-append front back in
    let some_byte : length front ≡ suc (length tail) = ap (λ l. length l) e in
    let first = read_code-cons fuel v (tail ++ back) o back (r back) in
    ap (λ l. read_code (suc fuel) (l ++ back)) e
    ∙ first
    ∙ ap (λ c. o ∷ c) (loop fuel (omega (arith, long, some_byte, k)))

compiled :
    (code : List Op)
    → All IsParsed code
    → (bytes : Bytes) × (compile code ≡ some bytes)
      × ((fuel : ℕ) → length bytes ≤ fuel → read_code fuel bytes ≡ code)
compiled [] p = ([], unfold compile in refl, λ fuel k. read_code-nil fuel)
compiled (o ∷ code) (p, ps) =
    let (front, writes) = written o p in
    let (back, c, loop) = compiled code ps in
    (
      front ++ back,
      compile-cons o code front back writes.3 c,
      λ fuel k. read_code_step o code front back fuel writes loop k,
    )

-- Opcodes that a parser can have made are compiled without an exception, and parsing the bytes
-- gives them back.
pub from_raw_script-compile :
    (code : List Op)
    → All IsParsed code
    → (bytes : Bytes) × (compile code ≡ some bytes) × (from_raw_script bytes ≡ code)
unfolding from_raw_script
from_raw_script-compile code p =
    let (bytes, c, loop) = compiled code p in (bytes, c, loop (length bytes) (omega arith))
