-- ===== src/Crc/Reference.antt =====
-- The table-driven CRC is the bit-by-bit one.
use xe_build.Base.{
  ℕ, zero, suc, ◌-◌, ◌*◌, ◌/◌, ◌%◌, ◌^◌, ◌<◌, bit_xor, ◌≡◌, refl, ap, sym, ◌∙◌, Bool, true, List,
  [], ◌∷◌, arith, get_or, ◌&&◌, ◌==◌, if◌then◌else◌,
}
use mathlib.Core.Path.{ap₂}
use native.Mathlib.Nat.{pow-suc, mul_comm}
use xe_build.Base.Xor.{
  half-bit_xor, parity-bit_xor, bit_xor_comm, bit_xor_assoc, bit_xor-zero, bit_xor-eq-add,
}
use xe_build.Crc.Table.{crc_32_tab}
use xe_build.Crc.{updc32, crc_from, crc32buf}

-- One bit of the CRC with the reversed polynomial 0xEDB88320.
pub bit_step : ℕ → ℕ
bit_step x = if x % 2 == 1 then bit_xor (x / 2) 0xedb88320 else x / 2

pub bit_steps : ℕ → ℕ → ℕ
bit_steps zero x = x
bit_steps (suc n) x = bit_steps n (bit_step x)

-- The definition of the CRC: a byte goes into the low end, and eight bits are shifted out.
pub crc_bitwise : ℕ → List ℕ → ℕ
crc_bitwise crc [] = crc
crc_bitwise crc (b ∷ bs) = crc_bitwise (bit_steps 8 (bit_xor crc (b % 256))) bs

bit_step-bit_xor : (g y : ℕ) → bit_step (bit_xor (2 * g) y) ≡ bit_xor g (bit_step y)
unfolding bit_step
bit_step-bit_xor g y =
    let half : bit_xor (2 * g) y / 2 ≡ bit_xor g (y / 2) =
      half-bit_xor (2 * g) y ∙ ap (λ (t : ℕ). bit_xor t (y / 2)) (omega arith) in
    ground (
      arith,
      half,
      parity-bit_xor (2 * g) y,
      ap (λ (t : ℕ). bit_xor t 0xedb88320) half,
      bit_xor_assoc g (y / 2) 0xedb88320,
    )

-- What stands above the low `k` bits comes through `k` steps unchanged.
bit_steps-bit_xor : (k g y : ℕ) → bit_steps k (bit_xor (2 ^ k * g) y) ≡ bit_xor g (bit_steps k y)
unfolding bit_steps
bit_steps-bit_xor zero g y = ap (λ (t : ℕ). bit_xor t y) (omega arith)
bit_steps-bit_xor (suc k) g y =
    ap (λ (t : ℕ). bit_steps k (bit_step (bit_xor t y)))
      (omega (arith, pow-suc 2 k, ap (λ (t : ℕ). t * g) (pow-suc 2 k)))
    ∙ (ap (bit_steps k) (bit_step-bit_xor (2 ^ k * g) y) ∙ bit_steps-bit_xor k g (bit_step y))

all_below : ℕ → (ℕ → Bool) → Bool
all_below zero p = true
all_below (suc n) p = p n && all_below n p

all_below_at : (n : ℕ) (p : ℕ → Bool) (x : ℕ) → all_below n p ≡ true → x < n → p x ≡ true
unfolding all_below
all_below_at zero p x h lt = absurd (omega arith)
all_below_at (suc n) p x h lt = ground (arith, all_below_at n p x)

table_checked : all_below 256 (λ i. get_or crc_32_tab i 0 == bit_steps 8 i) ≡ true
unfolding all_below bit_steps bit_step
table_checked = refl

eq_of_== : (a b : ℕ) → (a == b) ≡ true → a ≡ b
eq_of_== a b h = ground arith

table_lem : (i : ℕ) → i < 256 → get_or crc_32_tab i 0 ≡ bit_steps 8 i
table_lem i lt =
    eq_of_== _ _ (all_below_at 256 (λ i. get_or crc_32_tab i 0 == bit_steps 8 i) i table_checked lt)

abbrev halves : ℕ → ℕ → ℕ
halves zero x = x
halves (suc n) x = halves n (x / 2)

halves-bit_xor : (n a b : ℕ) → halves n (bit_xor a b) ≡ bit_xor (halves n a) (halves n b)
halves-bit_xor zero a b = refl
halves-bit_xor (suc n) a b = ap (halves n) (half-bit_xor a b) ∙ halves-bit_xor n (a / 2) (b / 2)

high_part : (crc b : ℕ) → b < 256 → bit_xor crc b / 256 ≡ crc / 256
high_part crc b lt =
    let gone : halves 8 b ≡ 0 = omega arith in
    omega (
      arith,
      halves-bit_xor 8 crc b,
      ap (λ (t : ℕ). bit_xor (halves 8 crc) t) gone,
      bit_xor-zero (halves 8 crc),
    )

-- One use of the table is eight single steps.
updc32_lem : (b crc : ℕ) → updc32 b crc ≡ bit_steps 8 (bit_xor crc (b % 256))
unfolding updc32
updc32_lem b crc =
    let z = bit_xor crc (b % 256) in
    let parts : bit_xor (2 ^ 8 * (z / 256)) (z % 256) ≡ z =
      ap (λ (t : ℕ). bit_xor t (z % 256)) (mul_comm (2 ^ 8) (z / 256))
      ∙ (bit_xor-eq-add 8 (z / 256) (z % 256) (omega arith) ∙ omega arith) in
    ap₂ bit_xor (table_lem (z % 256) (omega arith)) (sym (high_part crc (b % 256) (omega arith)))
    ∙ (bit_xor_comm (bit_steps 8 (z % 256)) (z / 256)
        ∙ (sym (bit_steps-bit_xor 8 (z / 256) (z % 256)) ∙ ap (bit_steps 8) parts))

crc_from_lem : (bs : List ℕ) (crc : ℕ) → crc_from crc bs ≡ crc_bitwise crc bs
unfolding crc_from crc_bitwise
crc_from_lem [] crc = refl
crc_from_lem (b ∷ bs) crc =
    crc_from_lem bs (updc32 b crc) ∙ ap (λ (t : ℕ). crc_bitwise t bs) (updc32_lem b crc)

-- `crc32buf` computes the CRC-32 of the buffer: the complement of the bit-by-bit division by the
-- reversed polynomial 0xEDB88320, started from 0xFFFFFFFF, for every buffer. So every entry of the
-- table is right.
pub crc32buf-bitwise : (buf : List ℕ) → crc32buf buf ≡ 2 ^ 32 - 1 - crc_bitwise 0xffffffff buf
unfolding crc32buf
crc32buf-bitwise buf = ap (λ (t : ℕ). 2 ^ 32 - 1 - t) (crc_from_lem buf 0xffffffff)
