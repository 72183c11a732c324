-- ===== src/Prelude/Bits.antt =====
-- Masks by `bit_and` as divisions and remainders.
use Prim.Native.Nat.{
  ℕ, zero, suc, ◌+◌, ◌*◌, ◌/◌, ◌%◌, ◌^◌, ◌≤◌, ◌<◌, min, bit_and, digits, bit_and-bitwise,
}
use mathlib.Core.Path.{◌≡◌, refl, sym, ap, ◌∙◌}
use native.Mathlib.Omega.{arith, pow_step}
use native.Mathlib.Nat.{div-div-eq-div-mul, mul_assoc}

abbrev counted : ℕ → ℕ → ℕ → ℕ
counted n x y = digits (λ b. zero) min n x y

counted_enough : (x y n k : ℕ) → x ≤ n → x ≤ k → counted n x y ≡ counted k x y
counted_enough zero y zero zero h l = refl
counted_enough zero y zero (suc k) h l = refl
counted_enough zero y (suc n) zero h l = refl
counted_enough zero y (suc n) (suc k) h l = refl
counted_enough (suc x) y zero k h l = absurd (omega (arith, h))
counted_enough (suc x) y (suc n) zero h l = absurd (omega (arith, l))
counted_enough (suc x) y (suc n) (suc k) h l =
    ap (λ c. c * 2 + min (suc x % 2) (y % 2))
      (counted_enough (suc x / 2) (y / 2) n k (omega (arith, h)) (omega (arith, l)))

zero_mask : (y : ℕ) → bit_and 0 y ≡ 0
zero_mask y = bit_and-bitwise 0 y

lowest : (x y : ℕ) → bit_and x y ≡ bit_and (x / 2) (y / 2) * 2 + min (x % 2) (y % 2)
lowest zero y = omega (arith, zero_mask y, zero_mask (y / 2))
lowest (suc x) y =
    bit_and-bitwise (suc x) y
    ∙ ap (λ c. c * 2 + min (suc x % 2) (y % 2))
        (counted_enough (suc x / 2) (y / 2) x (suc x / 2) (omega arith) (omega arith)
          ∙ sym (bit_and-bitwise (suc x / 2) (y / 2)))

empty_mask : (n x : ℕ) → x ≤ n → bit_and x 0 ≡ 0
empty_mask zero zero h = zero_mask 0
empty_mask zero (suc x) h = absurd (omega (arith, h))
empty_mask (suc n) zero h = zero_mask 0
empty_mask (suc n) (suc x) h =
    omega (arith, lowest (suc x) 0, empty_mask n (suc x / 2) (omega (arith, h)))

lowest_bit : (x : ℕ) → bit_and x 1 ≡ x % 2
lowest_bit x = omega (arith, lowest x 1, empty_mask (x / 2) (x / 2) (omega arith))

three_bits : (x : ℕ) → bit_and x 7 ≡ x % 8
three_bits x = omega (arith, lowest x 7, lowest (x / 2) 3, lowest_bit (x / 2 / 2))

even_mask : (x m : ℕ) → bit_and x (2 * m) ≡ 2 * bit_and (x / 2) m
even_mask x m =
    let half : 2 * m / 2 ≡ m = omega arith in
    let even : 2 * m % 2 ≡ 0 = omega arith in
    omega (arith, lowest x (2 * m), ap (λ c. bit_and (x / 2) c) half, even)

-- A mask that is shifted to the left reads the higher bits.
shifted_mask : (k x m : ℕ) → bit_and x (2 ^ k * m) ≡ 2 ^ k * bit_and (x / 2 ^ k) m
shifted_mask zero x m = unit x m
  where
    unit : (x m : ℕ) → bit_and x (1 * m) ≡ 1 * bit_and (x / 1) m
    unit x m =
        let a : 1 * m ≡ m = omega arith in
        let b : x / 1 ≡ x = omega arith in
        ap (λ c. bit_and x c) a ∙ omega (arith, ap (λ c. bit_and c m) b)
shifted_mask (suc k) x m =
    let twice : 2 ^ suc k * m ≡ 2 * (2 ^ k * m) =
      ap (λ c. c * m) (pow_step 2 k) ∙ mul_assoc 2 (2 ^ k) m in
    let halves : x / 2 / 2 ^ k ≡ x / 2 ^ suc k =
      div-div-eq-div-mul x 2 (2 ^ k) ∙ ap (λ c. x / c) (sym (pow_step 2 k)) in
    ap (λ c. bit_and x c) twice
    ∙ even_mask x (2 ^ k * m)
    ∙ ap (λ c. 2 * c) (shifted_mask k (x / 2) m)
    ∙ ap (λ c. 2 * (2 ^ k * bit_and c m)) halves
    ∙ times 2 (2 ^ k) (bit_and (x / 2 ^ suc k) m)
    ∙ ap (λ c. c * bit_and (x / 2 ^ suc k) m) (sym (pow_step 2 k))
  where
    times : (a b c : ℕ) → a * (b * c) ≡ a * b * c
    times a b c = sym (mul_assoc a b c)

pub bit_and-bit : (x k : ℕ) → bit_and x (2 ^ k) ≡ 2 ^ k * (x / 2 ^ k % 2)
bit_and-bit x k =
    let one : 2 ^ k ≡ 2 ^ k * 1 = omega arith in
    ap (λ c. bit_and x c) one ∙ shifted_mask k x 1 ∙ ap (λ c. 2 ^ k * c) (lowest_bit (x / 2 ^ k))

pub bit_and-three_bits : (x k : ℕ) → bit_and x (2 ^ k * 7) ≡ 2 ^ k * (x / 2 ^ k % 8)
bit_and-three_bits x k = shifted_mask k x 7 ∙ ap (λ c. 2 ^ k * c) (three_bits (x / 2 ^ k))

pub power_positive : (k : ℕ) → 0 < 2 ^ k
power_positive zero = omega arith
power_positive (suc k) = omega (arith, pow_step 2 k, power_positive k)
