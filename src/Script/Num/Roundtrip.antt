-- ===== src/Script/Num/Roundtrip.antt =====
-- Numbers survive their encoding, which is minimal.
use litedoge_js.Prelude.{
  ℕ, zero, suc, ◌+◌, ◌*◌, ◌/◌, ◌%◌, ◌^◌, ◌≤◌, ◌<◌, ◌≡◌, refl, sym, ap, subst, subst₂, ◌∙◌, Bool,
  true, false, [], ◌∷◌,
}
use litedoge_js.Prelude.{arith, Bool-cases, inl, inr, leb, length, if◌then◌else◌}
use litedoge_js.Prelude.Int.{ℤ, pos, negsuc, negate, pos_part, neg_part}
use native.Mathlib.Decide.{dec_lt}
use native.Mathlib.Nat.{pow-le-pow_right}
use litedoge_js.Script.Result.{Bytes, ok}
use litedoge_js.Script.Num.{
  to_bytes, append_sign, encode, has_sign, magnitude, from_bytes, is_minimal_num, decode,
}

to_bytes_step : (k m : ℕ) → 0 < m → to_bytes (suc k) m ≡ (m % 256) ∷ to_bytes k (m / 256)
unfolding to_bytes
to_bytes_step k m h = ground arith

to_bytes-zero : (k : ℕ) → to_bytes k 0 ≡ []
unfolding to_bytes
to_bytes-zero zero = refl
to_bytes-zero (suc k) = ground arith

-- What the three readers give on a sealed magnitude.
abbrev Reads : Bool → ℕ → Bytes → Type 0
Reads neg m bytes = (has_sign bytes ≡ neg) × (magnitude bytes ≡ m) × (is_minimal_num bytes ≡ true)

Reads-last : (neg : Bool) (m : ℕ) → 0 < m → m < 256 → Reads neg m (append_sign neg (m ∷ []))
unfolding append_sign has_sign magnitude is_minimal_num
Reads-last true m h k = (ground arith, ground arith, ground arith)
Reads-last false m h k = (ground arith, ground arith, ground arith)

Reads-cons :
    (neg : Bool) (b m d : ℕ) (ds : Bytes)
    → Reads neg m (d ∷ ds)
    → Reads neg (b + 256 * m) (b ∷ d ∷ ds)
unfolding has_sign magnitude is_minimal_num
Reads-cons neg b m d [] r = (r.0, ground (arith, r), ground (arith, r.2))
Reads-cons neg b m d (e ∷ es) r = (r.0, ground (arith, r), r.2)

append_sign-cons :
    (neg : Bool) (b : ℕ) (bs : Bytes) → (d : ℕ) × (ds : Bytes) × (append_sign neg (b ∷ bs) ≡ d ∷ ds)
unfolding append_sign
append_sign-cons neg b [] = elim (Bool-cases (leb 0x80 b)) [
  | inl e ↦ (b, (if neg then 0x80 else 0) ∷ [], rw e)
  | inr e ↦ (b + (if neg then 0x80 else 0), [], rw e)
]
append_sign-cons neg b (c ∷ bs) = (b, _, refl)

to_bytes-cons : (k m : ℕ) → 0 < m → m < 256 ^ k → (b : ℕ) × (bs : Bytes) × (to_bytes k m ≡ b ∷ bs)
to_bytes-cons zero m h f = absurd (omega (arith, h, f))
to_bytes-cons (suc k) m h f = (m % 256, to_bytes k (m / 256), to_bytes_step k m h)

Reads-append_sign_step :
    (neg : Bool) (b m d : ℕ) (ds : Bytes)
    → Reads neg m (append_sign neg (d ∷ ds))
    → Reads neg (b + 256 * m) (append_sign neg (b ∷ d ∷ ds))
Reads-append_sign_step neg b m d ds r =
    let (x, xs, q) = append_sign-cons neg d ds in
    unfold append_sign in
    subst (λ l. Reads neg (b + 256 * m) (b ∷ l)) (sym q)
      (Reads-cons neg b m x xs (subst (λ l. Reads neg m l) q r))

power_step : (k : ℕ) → 256 ^ suc k ≡ 256 * 256 ^ k
power_step k = omega arith

bound_step : (k m : ℕ) → m < 256 ^ suc k → m / 256 < 256 ^ k
bound_step k m h = omega (arith, power_step k)

-- A magnitude that fits in `k` bytes.
Reads-append_sign :
    (neg : Bool) (k m : ℕ) → 0 < m → m < 256 ^ k → Reads neg m (append_sign neg (to_bytes k m))
Reads-append_sign neg zero m h f = absurd (omega (arith, h, f))
Reads-append_sign neg (suc k) m h f = elim (dec_lt m 256) [
  | yes p ↦
      let low : m % 256 ≡ m = omega arith in
      let high : m / 256 ≡ 0 = omega arith in
      rw (to_bytes_step k m h, high, low, to_bytes-zero k) (Reads-last neg m h p)
  | no p ↦
      let room = bound_step k m f in
      let r = Reads-append_sign neg k (m / 256) (omega arith) room in
      let (d, ds, e) = to_bytes-cons k (m / 256) (omega arith) room in
      let split : m % 256 + 256 * (m / 256) ≡ m = omega arith in
      subst₂ (λ (n : ℕ) (l : Bytes). Reads neg n (append_sign neg l)) split
        (sym (to_bytes_step k m h ∙ ap (λ l. (m % 256) ∷ l) e))
        (Reads-append_sign_step neg (m % 256) (m / 256) d ds
          (subst (λ l. Reads neg (m / 256) (append_sign neg l)) e r))
]

length-append_sign_last : (neg : Bool) (b : ℕ) → length (append_sign neg (b ∷ [])) ≤ 2
unfolding append_sign
length-append_sign_last neg b = ground arith

length-append_sign_low : (neg : Bool) (b : ℕ) → b < 0x80 → length (append_sign neg (b ∷ [])) ≤ 1
unfolding append_sign
length-append_sign_low neg b h = ground arith

length-append_sign_step :
    (neg : Bool) (b d k : ℕ) (ds : Bytes)
    → length (append_sign neg (d ∷ ds)) ≤ k
    → length (append_sign neg (b ∷ d ∷ ds)) ≤ suc k
unfolding append_sign
length-append_sign_step neg b d k ds h = omega (arith, h)

half_step : (k m : ℕ) → m < 0x80 * 256 ^ suc k → m / 256 < 0x80 * 256 ^ k
half_step k m h = omega (arith, power_step k)

-- A magnitude that leaves the top bit of `suc k` bytes free takes no more than those.
length-append_sign :
    (neg : Bool) (j k m : ℕ)
    → 0 < m
    → m < 256 ^ j
    → m < 0x80 * 256 ^ k
    → length (append_sign neg (to_bytes j m)) ≤ suc k
length-append_sign neg zero k m p f h = absurd (omega (arith, p, f))
length-append_sign neg (suc j) zero m p f h =
    let low : m % 256 ≡ m = omega arith in
    let high : m / 256 ≡ 0 = omega arith in
    rw (to_bytes_step j m p, high, low, to_bytes-zero j)
      (length-append_sign_low neg m (omega arith))
length-append_sign neg (suc j) (suc k) m p f h = elim (dec_lt m 256) [
  | yes q ↦
      let high : m / 256 ≡ 0 = omega arith in
      rw (to_bytes_step j m p, high, to_bytes-zero j)
        (omega (arith, length-append_sign_last neg (m % 256)))
  | no q ↦
      let (d, ds, e) = to_bytes-cons j (m / 256) (omega arith) (bound_step j m f) in
      let r =
        length-append_sign neg j k (m / 256) (omega arith) (bound_step j m f) (half_step k m h) in
      rw (to_bytes_step j m p, e)
        (length-append_sign_step neg (m % 256) d (suc k) ds
          (subst (λ l. length (append_sign neg l) ≤ suc k) e r))
]

-- A number whose magnitude leaves the top bit of `suc k` bytes free, for at most eight bytes.
abbrev pub Fits : ℕ → ℤ → Type 0
Fits k n = (k < 8) × (pos_part n + neg_part n < 0x80 * 256 ^ k)

Fits_bound : (k m : ℕ) → k < 8 → m < 0x80 * 256 ^ k → m < 256 ^ 8
Fits_bound k m h f =
    let base : 0 < 256 = omega arith in
    let top : k ≤ 7 = omega arith in
    let le : 256 ^ k ≤ 256 ^ 7 = pow-le-pow_right base top in omega arith

decode_lem :
    (n : ℤ) (bytes : Bytes) (minimal : Bool) (limit : ℕ)
    → from_bytes bytes ≡ n
    → is_minimal_num bytes ≡ true
    → length bytes ≤ limit
    → decode bytes minimal limit ≡ ok n
unfolding decode
decode_lem n bytes minimal limit e f h = ground arith

decode-append_sign :
    (neg : Bool) (m : ℕ) (minimal : Bool) (k : ℕ) (n : ℤ)
    → k < 8
    → suc m < 0x80 * 256 ^ k
    → ((bytes : Bytes) → has_sign bytes ≡ neg → magnitude bytes ≡ suc m → from_bytes bytes ≡ n)
    → decode (append_sign neg (to_bytes 8 (suc m))) minimal (suc k) ≡ ok n
decode-append_sign neg m minimal k n h small reads =
    let f = Fits_bound k (suc m) h small in
    let (s, v, l) = Reads-append_sign neg 8 (suc m) (omega arith) f in
    let e = length-append_sign neg 8 k (suc m) (omega arith) f small in
    decode_lem n _ minimal (suc k) (reads _ s v) l e

reads-pos :
    (m : ℕ) (bytes : Bytes)
    → has_sign bytes ≡ false
    → magnitude bytes ≡ m
    → from_bytes bytes ≡ pos m
unfolding from_bytes
reads-pos m bytes s v = ground arith

reads-neg :
    (m : ℕ) (bytes : Bytes)
    → has_sign bytes ≡ true
    → magnitude bytes ≡ suc m
    → from_bytes bytes ≡ negsuc m
unfolding from_bytes negate
reads-neg m bytes s v = ground arith

zero_reads :
    (from_bytes (encode (pos 0)) ≡ pos 0)
    × (is_minimal_num (encode (pos 0)) ≡ true)
    × (length (encode (pos 0)) ≡ 0)
unfolding encode from_bytes is_minimal_num has_sign magnitude append_sign to_bytes
zero_reads = (refl, refl, refl)

-- A number whose magnitude leaves the top bit of k + 1 bytes free, for at most eight bytes, is
-- read back from its encoding under a limit of k + 1 bytes, also where minimal encodings are
-- required.
pub decode-encode :
    (n : ℤ) (minimal : Bool) (k : ℕ) → Fits k n → decode (encode n) minimal (suc k) ≡ ok n
decode-encode (pos zero) minimal k h =
    decode_lem (pos 0) (encode (pos 0)) minimal (suc k) zero_reads.0 zero_reads.1
      (omega (arith, zero_reads.2))
decode-encode (pos (suc m)) minimal k h =
    let small : suc m < 0x80 * 256 ^ k = omega (arith, h.1) in
    unfold encode in
    decode-append_sign false m minimal k (pos (suc m)) h.0 small (reads-pos (suc m))
decode-encode (negsuc m) minimal k h =
    let small : suc m < 0x80 * 256 ^ k = omega (arith, h.1) in
    unfold encode in decode-append_sign true m minimal k (negsuc m) h.0 small (reads-neg m)
