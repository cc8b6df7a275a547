-- ===== src/Prelude/Bits.antt =====
-- The digits of `|` and `^` of two numbers.
use Prim.Native.Nat.{
  ℕ, zero, suc, ◌+◌, ◌*◌, ◌/◌, ◌%◌, ◌≤◌, min, max, differ, digits, bit_and, bit_and-bitwise, bit_or,
  bit_xor, bit_or-bitwise, bit_xor-bitwise,
}
use mathlib.Core.Path.{◌≡◌, refl}
use native.Mathlib.Omega.{arith}

module _ (f : ℕ → ℕ → ℕ) (f-zero : (b : ℕ) → f 0 b ≡ b) where
  abbrev by_digits : ℕ → ℕ → ℕ → ℕ
  by_digits n a b = digits (λ b. b) f n a b

  by_digits_fuel : (n m a b : ℕ) → a ≤ n → a ≤ m → by_digits n a b ≡ by_digits m a b
  by_digits_fuel zero zero a b p q = refl
  by_digits_fuel zero (suc m) zero b p q = refl
  by_digits_fuel zero (suc m) (suc a) b p q = absurd (omega arith)
  by_digits_fuel (suc n) zero zero b p q = refl
  by_digits_fuel (suc n) zero (suc a) b p q = absurd (omega arith)
  by_digits_fuel (suc n) (suc m) zero b p q = refl
  by_digits_fuel (suc n) (suc m) (suc a) b p q =
      omega (arith, by_digits_fuel n m (suc a / 2) (b / 2) (omega arith) (omega arith))

  by_digits_step :
      (a b : ℕ) → by_digits a a b ≡ by_digits (a / 2) (a / 2) (b / 2) * 2 + f (a % 2) (b % 2)
  by_digits_step zero b = omega (arith, f-zero (b % 2))
  by_digits_step (suc a) b =
      omega (arith, by_digits_fuel a (suc a / 2) (suc a / 2) (b / 2) (omega arith) (omega arith))

bit_or_step : (a b : ℕ) → bit_or a b ≡ bit_or (a / 2) (b / 2) * 2 + max (a % 2) (b % 2)
bit_or_step a b = omega (
  arith,
  bit_or-bitwise a b,
  bit_or-bitwise (a / 2) (b / 2),
  by_digits_step max (λ b. omega arith) a b,
)

bit_xor_step : (a b : ℕ) → bit_xor a b ≡ bit_xor (a / 2) (b / 2) * 2 + differ (a % 2) (b % 2)
bit_xor_step a b = omega (
  arith,
  bit_xor-bitwise a b,
  bit_xor-bitwise (a / 2) (b / 2),
  by_digits_step differ (λ b. refl) a b,
)

differ-zero : (x y : ℕ) → differ x y ≡ 0 → x ≡ y
differ-zero zero y h = omega (arith, h)
differ-zero (suc x) zero h = absurd (omega (arith, h))
differ-zero (suc x) (suc y) h = omega (arith, differ-zero x y h)

differ_self : (x : ℕ) → differ x x ≡ 0
differ_self zero = refl
differ_self (suc x) = differ_self x

bit_or-zero_fuel : (n a b : ℕ) → a + b ≤ n → bit_or a b ≡ 0 → (a ≡ 0) × (b ≡ 0)
bit_or-zero_fuel zero a b p h = (omega arith, omega arith)
bit_or-zero_fuel (suc n) zero zero p h = (refl, refl)
bit_or-zero_fuel (suc n) zero (suc b) p h =
    let s = bit_or_step 0 (suc b) in
    let (x, y) = bit_or-zero_fuel n (0 / 2) (suc b / 2) (omega arith) (omega (arith, s, h)) in
    (refl, omega (arith, s, h, x, y))
bit_or-zero_fuel (suc n) (suc a) b p h =
    let s = bit_or_step (suc a) b in
    let (x, y) = bit_or-zero_fuel n (suc a / 2) (b / 2) (omega arith) (omega (arith, s, h)) in
    (omega (arith, s, h, x, y), omega (arith, s, h, x, y))

pub bit_or-zero : (a b : ℕ) → bit_or a b ≡ 0 → (a ≡ 0) × (b ≡ 0)
bit_or-zero a b h = bit_or-zero_fuel (a + b) a b (omega arith) h

bit_xor-zero_fuel : (n a b : ℕ) → a + b ≤ n → bit_xor a b ≡ 0 → a ≡ b
bit_xor-zero_fuel zero a b p h = omega arith
bit_xor-zero_fuel (suc n) zero zero p h = refl
bit_xor-zero_fuel (suc n) zero (suc b) p h =
    let s = bit_xor_step 0 (suc b) in
    let e = differ-zero (0 % 2) (suc b % 2) (omega (arith, s, h)) in
    let x = bit_xor-zero_fuel n (0 / 2) (suc b / 2) (omega arith) (omega (arith, s, h)) in
    omega (arith, x, e)
bit_xor-zero_fuel (suc n) (suc a) b p h =
    let s = bit_xor_step (suc a) b in
    let e = differ-zero (suc a % 2) (b % 2) (omega (arith, s, h)) in
    let x = bit_xor-zero_fuel n (suc a / 2) (b / 2) (omega arith) (omega (arith, s, h)) in
    omega (arith, x, e)

pub bit_xor-zero : (a b : ℕ) → bit_xor a b ≡ 0 → a ≡ b
bit_xor-zero a b h = bit_xor-zero_fuel (a + b) a b (omega arith) h

bit_xor_self_fuel : (n a : ℕ) → a ≤ n → bit_xor a a ≡ 0
bit_xor_self_fuel n zero h = refl
bit_xor_self_fuel zero (suc a) h = absurd (omega arith)
bit_xor_self_fuel (suc n) (suc a) h = omega (
  arith,
  bit_xor_step (suc a) (suc a),
  differ_self (suc a % 2),
  bit_xor_self_fuel n (suc a / 2) (omega arith),
)

pub bit_xor_self : (a : ℕ) → bit_xor a a ≡ 0
bit_xor_self a = bit_xor_self_fuel a a (omega arith)

bit_and_by : (n m a b : ℕ) → a ≤ n → a ≤ m → digits (λ b. 0) min n a b ≡ digits (λ b. 0) min m a b
bit_and_by zero zero a b p q = refl
bit_and_by zero (suc m) zero b p q = refl
bit_and_by zero (suc m) (suc a) b p q = absurd (omega arith)
bit_and_by (suc n) zero zero b p q = refl
bit_and_by (suc n) zero (suc a) b p q = absurd (omega arith)
bit_and_by (suc n) (suc m) zero b p q = refl
bit_and_by (suc n) (suc m) (suc a) b p q =
    omega (arith, bit_and_by n m (suc a / 2) (b / 2) (omega arith) (omega arith))

bit_and_step : (a b : ℕ) → bit_and a b ≡ bit_and (a / 2) (b / 2) * 2 + min (a % 2) (b % 2)
bit_and_step zero b = omega (arith, bit_and-bitwise 0 b, bit_and-bitwise (0 / 2) (b / 2))
bit_and_step (suc a) b = omega (
  arith,
  bit_and-bitwise (suc a) b,
  bit_and-bitwise (suc a / 2) (b / 2),
  bit_and_by a (suc a / 2) (suc a / 2) (b / 2) (omega arith) (omega arith),
)

bit_and-no_bits_fuel : (n a : ℕ) → a ≤ n → bit_and a 0 ≡ 0
bit_and-no_bits_fuel n zero h = refl
bit_and-no_bits_fuel zero (suc a) h = absurd (omega arith)
bit_and-no_bits_fuel (suc n) (suc a) h =
    omega (arith, bit_and_step (suc a) 0, bit_and-no_bits_fuel n (suc a / 2) (omega arith))

pub bit_and-one : (a : ℕ) → bit_and a 1 ≡ a % 2
bit_and-one a = omega (arith, bit_and_step a 1, bit_and-no_bits_fuel (a / 2) (a / 2) (omega arith))

-- the digits of 9 and of 73, from the last one on
nine_step : (a : ℕ) → bit_and a 9 ≡ bit_and (a / 2) 4 * 2 + a % 2
nine_step a = omega (arith, bit_and_step a 9)

four_step : (a : ℕ) → bit_and a 4 ≡ bit_and (a / 2) 2 * 2
four_step a = omega (arith, bit_and_step a 4)

two_step : (a : ℕ) → bit_and a 2 ≡ bit_and (a / 2) 1 * 2
two_step a = omega (arith, bit_and_step a 2)

seventy_three_step : (a : ℕ) → bit_and a 73 ≡ bit_and (a / 2) 36 * 2 + a % 2
seventy_three_step a = omega (arith, bit_and_step a 73)

thirty_six_step : (a : ℕ) → bit_and a 36 ≡ bit_and (a / 2) 18 * 2
thirty_six_step a = omega (arith, bit_and_step a 36)

eighteen_step : (a : ℕ) → bit_and a 18 ≡ bit_and (a / 2) 9 * 2
eighteen_step a = omega (arith, bit_and_step a 18)

eighth : (a : ℕ) → a / 2 / 2 / 2 ≡ a / 8
eighth a = omega arith

eighth_eighth : (a : ℕ) → a / 8 / 8 ≡ a / 64
eighth_eighth a = omega arith

by_eight : (x y : ℕ) → x * 2 * 2 * 2 + y ≡ y + x * 8
by_eight x y = omega arith

three_parts : (x y z : ℕ) → (x + y * 8) * 2 * 2 * 2 + z ≡ z + x * 8 + y * 64
three_parts x y z = omega arith

bit_and_nine : (a : ℕ) → bit_and a 9 ≡ a % 2 + a / 8 % 2 * 8
bit_and_nine a =
    rw (nine_step a, four_step (a / 2), two_step (a / 2 / 2), bit_and-one (a / 2 / 2 / 2), eighth a)
      (by_eight (a / 8 % 2) (a % 2))

-- three bits of a number, each three places above the one before it
pub bit_and-execute : (a : ℕ) → bit_and a 0o111 ≡ a % 2 + a / 8 % 2 * 8 + a / 64 % 2 * 64
bit_and-execute a =
    rw
      (
        seventy_three_step a,
        thirty_six_step (a / 2),
        eighteen_step (a / 2 / 2),
        bit_and_nine (a / 2 / 2 / 2),
        eighth a,
        eighth_eighth a,
      )
      (three_parts (a / 8 % 2) (a / 64 % 2) (a % 2))
