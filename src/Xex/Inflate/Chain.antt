-- ===== src/Xex/Inflate/Chain.antt =====
-- A chain of blocks in memory, and the stream that it holds.
use xe_build.Base.{
  ℕ, suc, ◌+◌, ◌^◌, ◌<◌, ◌≡◌, refl, ap, ◌∙◌, List, [], ◌∷◌, ◌++◌, length, arith, All,
}
use mathlib.Core.Path.{subst}
use xe_build.Bytes.{bytes16, bytes32, byte_at, get_be16, get_be32}
use xe_build.Bytes.Laws.{get_be16_sum, get_be32_sum}
use xe_build.Svod.Disc.{Memory, slice}
use xe_build.Xex.Inflate.{list_memory}

-- A block of the file: the hash of the next one, the parts of the stream, and what follows the mark
-- at their end.
pub record Block : Type 0 where
  pub hash : List ℕ
  pub parts : List (List ℕ)
  pub tail : List ℕ

-- The bytes of a block, and of a chain of them: each block starts with the size of the next.
unfoldable pub part_bytes : List (List ℕ) → List ℕ
part_bytes [] = bytes16 0
part_bytes (p ∷ ps) = bytes16 (length p) ++ (p ++ part_bytes ps)

abbrev pub block_bytes : ℕ → Block → List ℕ
block_bytes next b = bytes32 next ++ (b.hash ++ (part_bytes b.parts ++ b.tail))

abbrev pub first_size : List Block → ℕ
first_size [] = 0
first_size (b ∷ bs) = length (block_bytes 0 b)

unfoldable pub chain_bytes : List Block → List ℕ
chain_bytes [] = []
chain_bytes (b ∷ bs) = block_bytes (first_size bs) b ++ chain_bytes bs

-- The stream.
unfoldable pub joined : List (List ℕ) → List ℕ
joined [] = []
joined (p ∷ ps) = p ++ joined ps

unfoldable pub stream : List Block → List ℕ
stream [] = []
stream (b ∷ bs) = joined b.parts ++ stream bs

-- A part is neither empty nor longer than its length field can say; a hash has 20 bytes.
abbrev pub IsPart : List ℕ → Type 0
IsPart p = (0 < length p) × (length p < 2 ^ 16)

abbrev pub IsBlock : Block → Type 0
IsBlock b = (length b.hash ≡ 20) × All IsPart b.parts

-- The bytes stand in memory at a place.
unfoldable pub Stands : Memory → ℕ → List ℕ → Type 0
Stands mem pos [] = Unit
Stands mem pos (x ∷ xs) = (mem pos ≡ x) × Stands mem (pos + 1) xs

pub Stands-append :
    (mem : Memory) (pos : ℕ) (xs ys : List ℕ)
    → Stands mem pos (xs ++ ys)
    → Stands mem pos xs × Stands mem (pos + length xs) ys
unfolding Stands
Stands-append mem pos [] ys h =
    let e : pos ≡ pos + 0 = omega arith in (tt, subst (λ p. Stands mem p ys) e h)
Stands-append mem pos (x ∷ xs) ys h =
    let rest = Stands-append mem (pos + 1) xs ys h.1 in
    let e : pos + 1 + length xs ≡ pos + suc (length xs) = omega arith in
    ((h.0, rest.0), subst (λ p. Stands mem p ys) e rest.1)

pub slice-Stands :
    (mem : Memory) (pos : ℕ) (xs : List ℕ) → Stands mem pos xs → slice mem pos (length xs) ≡ xs
unfolding Stands slice
slice-Stands mem pos [] h = refl
slice-Stands mem pos (x ∷ xs) h = λ i. h.0 i ∷ slice-Stands mem (pos + 1) xs h.1 i

byte_at-Stands :
    (mem : Memory) (pos : ℕ) (xs : List ℕ)
    → ((k : ℕ) → k < length xs → mem (pos + k) ≡ byte_at xs k)
    → Stands mem pos xs
unfolding Stands
byte_at-Stands mem pos [] h = tt
byte_at-Stands mem pos (x ∷ xs) h =
    let zero_on : pos + 0 ≡ pos = omega arith in
    (
      subst (λ p. mem p ≡ x) zero_on (h 0 (omega arith)),
      byte_at-Stands mem (pos + 1) xs (λ k lt.
          let place : pos + suc k ≡ pos + 1 + k = omega arith in
          subst (λ p. mem p ≡ byte_at xs k) place (h (suc k) (omega arith))),
    )

pub list_memory-Stands : (xs : List ℕ) → Stands (list_memory xs) 0 xs
list_memory-Stands xs =
    byte_at-Stands (list_memory xs) 0 xs
      (λ k lt. let e : 0 + k ≡ k = omega arith in ap (list_memory xs) e)

pub read16 :
    (mem : Memory) (pos n : ℕ)
    → n < 2 ^ 16
    → Stands mem pos (bytes16 n)
    → get_be16 (slice mem pos 2) 0 ≡ n
unfolding Stands slice
read16 mem pos n small h = get_be16_sum (slice mem pos 2) 0 ∙ omega (arith, h.0, h.1.0)

pub read32 :
    (mem : Memory) (pos n : ℕ)
    → n < 2 ^ 32
    → Stands mem pos (bytes32 n)
    → get_be32 (slice mem pos 4) 0 ≡ n
unfolding Stands slice
read32 mem pos n small h =
    let e₂ : pos + 1 + 1 ≡ pos + 2 = omega arith in
    let e₃ : pos + 1 + 1 + 1 ≡ pos + 3 = omega arith in
    get_be32_sum (slice mem pos 4) 0 ∙ omega (arith, h.0, h.1.0, h.1.1.0, h.1.1.1.0)
