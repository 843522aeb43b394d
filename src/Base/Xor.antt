-- ===== src/Base/Xor.antt =====
-- Laws of `^` on words of any width, from its equation for the lowest digit.
use Prim.Native.Nat.{ℕ, zero, suc, ◌+◌, ◌*◌, ◌/◌, ◌%◌, ◌^◌, ◌≤◌, ◌<◌}
use Prim.Native.Nat.{bit_xor, bit_xor-bitwise, digits, differ}
use mathlib.Core.Path.{◌≡◌, refl, ap}
use native.Mathlib.Nat.{pow-suc}
use native.Mathlib.Omega.{arith}

abbrev xor_digits : ℕ → ℕ → ℕ → ℕ
xor_digits n a b = digits (λ c. c) differ n a b

xor_digits_fuel : (n m a b : ℕ) → a ≤ n → a ≤ m → xor_digits n a b ≡ xor_digits m a b
xor_digits_fuel zero zero a b p q = refl
xor_digits_fuel zero (suc m) zero b p q = refl
xor_digits_fuel zero (suc m) (suc a) b p q = absurd (omega arith)
xor_digits_fuel (suc n) zero zero b p q = refl
xor_digits_fuel (suc n) zero (suc a) b p q = absurd (omega arith)
xor_digits_fuel (suc n) (suc m) zero b p q = refl
xor_digits_fuel (suc n) (suc m) (suc a) b p q =
    omega (arith, xor_digits_fuel n m (suc a / 2) (b / 2) (omega arith) (omega arith))

differ_sum : (x y : ℕ) → x < 2 → y < 2 → differ x y ≡ (x + y) % 2
differ_sum zero y p q = omega arith
differ_sum (suc zero) zero p q = refl
differ_sum (suc zero) (suc zero) p q = refl
differ_sum (suc zero) (suc (suc y)) p q = absurd (omega arith)
differ_sum (suc (suc x)) y p q = absurd (omega arith)

zero-bit_xor : (b : ℕ) → bit_xor 0 b ≡ b
zero-bit_xor b = bit_xor-bitwise 0 b

xor_digit : (a b : ℕ) → bit_xor a b ≡ bit_xor (a / 2) (b / 2) * 2 + (a + b) % 2
xor_digit zero b = omega (arith, zero-bit_xor b, zero-bit_xor (b / 2))
xor_digit (suc a) b = omega (
  arith,
  bit_xor-bitwise (suc a) b,
  bit_xor-bitwise (suc a / 2) (b / 2),
  differ_sum (suc a % 2) (b % 2) (omega arith) (omega arith),
  xor_digits_fuel a (suc a / 2) (suc a / 2) (b / 2) (omega arith) (omega arith),
)

-- Half of `a ^ b`, and its lowest digit.
pub half-bit_xor : (a b : ℕ) → bit_xor a b / 2 ≡ bit_xor (a / 2) (b / 2)
half-bit_xor a b = omega (arith, xor_digit a b)

pub parity-bit_xor : (a b : ℕ) → bit_xor a b % 2 ≡ (a + b) % 2
parity-bit_xor a b = omega (arith, xor_digit a b)

comm_fuel : (n a b : ℕ) → a + b ≤ n → bit_xor a b ≡ bit_xor b a
comm_fuel n zero zero h = refl
comm_fuel zero zero (suc b) h = absurd (omega arith)
comm_fuel zero (suc a) b h = absurd (omega arith)
comm_fuel (suc n) zero (suc b) h =
    omega (arith, xor_digit 0 (suc b), xor_digit (suc b) 0, comm_fuel n 0 (suc b / 2) (omega arith))
comm_fuel (suc n) (suc a) b h =
    omega (
      arith,
      xor_digit (suc a) b,
      xor_digit b (suc a),
      comm_fuel n (suc a / 2) (b / 2) (omega arith),
    )

pub bit_xor_comm : (a b : ℕ) → bit_xor a b ≡ bit_xor b a
bit_xor_comm a b = comm_fuel (a + b) a b (omega arith)

pub bit_xor-zero : (a : ℕ) → bit_xor a 0 ≡ a
bit_xor-zero a = omega (arith, bit_xor_comm a 0, zero-bit_xor a)

assoc_fuel : (n a b c : ℕ) → a + b + c ≤ n → bit_xor (bit_xor a b) c ≡ bit_xor a (bit_xor b c)
assoc_fuel zero a b c h =
    let za : a ≡ 0 = omega arith in
    let zb : b ≡ 0 = omega arith in let zc : c ≡ 0 = omega arith in rw (za, zb, zc) refl
assoc_fuel (suc n) a b c h = omega (
  arith,
  xor_digit (bit_xor a b) c,
  xor_digit a (bit_xor b c),
  ap (λ (t : ℕ). bit_xor t (c / 2)) (half-bit_xor a b),
  ap (λ (t : ℕ). bit_xor (a / 2) t) (half-bit_xor b c),
  parity-bit_xor a b,
  parity-bit_xor b c,
  assoc_fuel n (a / 2) (b / 2) (c / 2) (omega arith),
)

pub bit_xor_assoc : (a b c : ℕ) → bit_xor (bit_xor a b) c ≡ bit_xor a (bit_xor b c)
bit_xor_assoc a b c = assoc_fuel (a + b + c) a b c (omega arith)

pub bit_xor-eq-add : (k q r : ℕ) → r < 2 ^ k → bit_xor (q * 2 ^ k) r ≡ q * 2 ^ k + r
bit_xor-eq-add zero q r h = let z : r ≡ 0 = omega arith in ground (arith, z, bit_xor-zero (q * 1))
bit_xor-eq-add (suc k) q r h = ground (
  arith,
  xor_digit (q * 2 ^ suc k) r,
  ap (λ (t : ℕ). q * t) (pow-suc 2 k),
  bit_xor-eq-add k q (r / 2) (omega (arith, pow-suc 2 k)),
)
