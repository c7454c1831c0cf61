-- ===== src/Lut/Xor.antt =====
-- The exclusive or of two numbers, by halves.
use Prim.Native.Nat.{bit_xor, digits, differ, bit_xor-bitwise}
use native.Mathlib.Nat.{two-pow-succ}
use pimlex_fast.Base.{ℕ, zero, suc, ◌+◌, ◌*◌, ◌/◌, ◌%◌, ◌^◌, ◌≤◌, ◌<◌, ◌≡◌, refl, arith}

abbrev xor_digits : ℕ → ℕ → ℕ → ℕ
xor_digits n a b = digits (λ b. b) differ n a b

xor_digits_fuel : (n m a b : ℕ) → a ≤ n → a ≤ m → xor_digits n a b ≡ xor_digits m a b
xor_digits_fuel zero zero a b p q = refl
xor_digits_fuel zero (suc m) zero b p q = refl
xor_digits_fuel zero (suc m) (suc a) b p q = absurd (omega arith)
xor_digits_fuel (suc n) zero zero b p q = refl
xor_digits_fuel (suc n) zero (suc a) b p q = absurd (omega arith)
xor_digits_fuel (suc n) (suc m) zero b p q = refl
xor_digits_fuel (suc n) (suc m) (suc a) b p q =
    omega (arith, xor_digits_fuel n m (suc a / 2) (b / 2) (omega arith) (omega arith))

zero-bit_xor : (b : ℕ) → bit_xor 0 b ≡ b
zero-bit_xor b = bit_xor-bitwise 0 b

bit_differ : (b : ℕ) → differ 0 (b % 2) ≡ b % 2
bit_differ b = refl

-- The lowest digit apart.
pub bit_xor_step : (a b : ℕ) → bit_xor a b ≡ bit_xor (a / 2) (b / 2) * 2 + differ (a % 2) (b % 2)
bit_xor_step zero b = omega (arith, zero-bit_xor b, zero-bit_xor (b / 2), bit_differ b)
bit_xor_step (suc a) b = omega (
  arith,
  bit_xor-bitwise (suc a) b,
  bit_xor-bitwise (suc a / 2) (b / 2),
  xor_digits_fuel a (suc a / 2) (suc a / 2) (b / 2) (omega arith) (omega arith),
)

-- Two digits differ or are the same.
digit_differ :
    (x y : ℕ)
    → x < 2
    → y < 2
    → (differ x y < 2) × (differ x y ≡ 0 → x ≡ y) × (x ≡ y → differ x y ≡ 0)
digit_differ zero y h k = (k, λ e. omega arith, λ e. omega arith)
digit_differ (suc zero) zero h k = (omega arith, λ e. omega (arith, e), λ e. omega (arith, e))
digit_differ (suc zero) (suc zero) h k = (omega arith, λ e. refl, λ e. refl)
digit_differ (suc zero) (suc (suc y)) h k = absurd (omega arith)
digit_differ (suc (suc x)) y h k = absurd (omega arith)

pub half_lt : (n a : ℕ) → a < 2 ^ suc n → a / 2 < 2 ^ n
half_lt n a h = omega (arith, two-pow-succ n)

pub bit_xor_lt : (n a b : ℕ) → a < 2 ^ n → b < 2 ^ n → bit_xor a b < 2 ^ n
bit_xor_lt zero a b h k =
    let none_there : a ≡ 0 = omega arith in rw none_there (omega (arith, zero-bit_xor b))
bit_xor_lt (suc n) a b h k =
    let d = digit_differ (a % 2) (b % 2) (omega arith) (omega arith) in
    let half = bit_xor_lt n (a / 2) (b / 2) (half_lt n a h) (half_lt n b k) in
    omega (arith, bit_xor_step a b, d.0, half, two-pow-succ n)

-- It is 0 for equal numbers, and for these alone.
pub bit_xor-eq-zero : (n a b : ℕ) → a < 2 ^ n → b < 2 ^ n → bit_xor a b ≡ 0 → a ≡ b
bit_xor-eq-zero zero a b h k e = omega (arith, h, k)
bit_xor-eq-zero (suc n) a b h k e =
    let low =
      (digit_differ (a % 2) (b % 2) (omega arith) (omega arith)).1
        (omega (arith, bit_xor_step a b)) in
    let high =
      bit_xor-eq-zero n (a / 2) (b / 2) (half_lt n a h) (half_lt n b k)
        (omega (arith, bit_xor_step a b)) in
    omega (arith, low, high)

pub bit_xor_self : (n a : ℕ) → a < 2 ^ n → bit_xor a a ≡ 0
bit_xor_self zero a h = let none_there : a ≡ 0 = omega arith in rw none_there refl
bit_xor_self (suc n) a h =
    let same = (digit_differ (a % 2) (a % 2) (omega arith) (omega arith)).2 refl in
    omega (arith, bit_xor_step a a, same, bit_xor_self n (a / 2) (half_lt n a h))

pub bit_xor_half : (a b : ℕ) → bit_xor a b / 2 ≡ bit_xor (a / 2) (b / 2)
bit_xor_half a b =
    omega (arith, bit_xor_step a b, (digit_differ (a % 2) (b % 2) (omega arith) (omega arith)).0)
