-- ===== src/Base/Bits.antt =====
-- `|` of two words whose set bits are apart is their sum, at every width.
use Prim.Native.Nat.{ℕ, zero, suc, ◌+◌, ◌*◌, ◌/◌, ◌%◌, ◌^◌, ◌≤◌, ◌<◌, max}
use Prim.Native.Nat.{bit_or, bit_or-bitwise, digits}
use mathlib.Core.Path.{◌≡◌, refl, ap, subst}
use native.Mathlib.Nat.{pow-suc, div-add-mod}
use native.Mathlib.Omega.{arith}

abbrev or_digits : ℕ → ℕ → ℕ → ℕ
or_digits n a b = digits (λ c. c) max n a b

-- Any two fuels that reach the first word give one result.
or_digits_fuel : (n m a b : ℕ) → a ≤ n → a ≤ m → or_digits n a b ≡ or_digits m a b
or_digits_fuel zero zero a b p q = refl
or_digits_fuel zero (suc m) zero b p q = refl
or_digits_fuel zero (suc m) (suc a) b p q = absurd (omega arith)
or_digits_fuel (suc n) zero zero b p q = refl
or_digits_fuel (suc n) zero (suc a) b p q = absurd (omega arith)
or_digits_fuel (suc n) (suc m) zero b p q = refl
or_digits_fuel (suc n) (suc m) (suc a) b p q =
    omega (arith, or_digits_fuel n m (suc a / 2) (b / 2) (omega arith) (omega arith))

zero-bit_or : (b : ℕ) → bit_or 0 b ≡ b
zero-bit_or b = bit_or-bitwise 0 b

-- The lowest digit of `|`.
bit_or_digit : (a b : ℕ) → bit_or a b ≡ bit_or (a / 2) (b / 2) * 2 + max (a % 2) (b % 2)
bit_or_digit zero b = omega (arith, zero-bit_or b, zero-bit_or (b / 2))
bit_or_digit (suc a) b = omega (
  arith,
  bit_or-bitwise (suc a) b,
  bit_or-bitwise (suc a / 2) (b / 2),
  or_digits_fuel a (suc a / 2) (suc a / 2) (b / 2) (omega arith) (omega arith),
)

bit_or-zero_fuel : (n a : ℕ) → a ≤ n → bit_or a 0 ≡ a
bit_or-zero_fuel n zero h = refl
bit_or-zero_fuel zero (suc a) h = absurd (omega arith)
bit_or-zero_fuel (suc n) (suc a) h =
    omega (arith, bit_or_digit (suc a) 0, bit_or-zero_fuel n (suc a / 2) (omega arith))

pub bit_or-eq-add : (k q r : ℕ) → r < 2 ^ k → bit_or (q * 2 ^ k) r ≡ q * 2 ^ k + r
bit_or-eq-add zero q r h =
    let z : r ≡ 0 = omega arith in ground (arith, z, bit_or-zero_fuel (q * 1) (q * 1) (omega arith))
bit_or-eq-add (suc k) q r h = ground (
  arith,
  bit_or_digit (q * 2 ^ suc k) r,
  ap (λ (t : ℕ). q * t) (pow-suc 2 k),
  bit_or-eq-add k q (r / 2) (omega (arith, pow-suc 2 k)),
)

-- The same where the first word is a multiple of the power, in the form that its test has.
pub bit_or_apart : (k x r : ℕ) → x % 2 ^ k ≡ 0 → r < 2 ^ k → bit_or x r ≡ x + r
bit_or_apart k x r e h =
    let whole : x / 2 ^ k * 2 ^ k ≡ x = grind (arith, div-add-mod x (2 ^ k)) in
    subst (λ y. bit_or y r ≡ y + r) whole (bit_or-eq-add k (x / 2 ^ k) r h)
