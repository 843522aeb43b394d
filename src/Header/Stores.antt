-- ===== src/Header/Stores.antt =====
-- What stands in a buffer behind a store.
use xe_build.Base.{
  ℕ, suc, ◌+◌, ◌-◌, ◌≤◌, ◌<◌, ◌≡◌, ◌⊎◌, inl, inr, refl, ap, ◌∙◌, Bool, true, false, ◌&&◌, List, [],
  ◌∷◌, length, arith, ltb, leb, Bool-cases,
}
use xe_build.Bytes.{byte_at}
use xe_build.Svod.Disc.{Memory, slice, store}
use xe_build.Svod.Writer.Blocks.{slice_ext}

-- The bytes that were stored.
byte_list : (xs : List ℕ) → slice (λ k. byte_at xs k) 0 (length xs) ≡ xs
unfolding slice
byte_list [] = refl
byte_list (x ∷ xs) =
    ap (λ t. x ∷ t)
      (slice_ext (λ k. byte_at (x ∷ xs) k) (λ k. byte_at xs k) (0 + 1) 0 (length xs)
          (λ k lt. let e : 0 + 1 + k ≡ suc (0 + k) = omega arith in ap (byte_at (x ∷ xs)) e)
        ∙ byte_list xs)

pub slice-store_same :
    (mem : Memory) (p : ℕ) (xs : List ℕ) → slice (store mem p xs) p (length xs) ≡ xs
slice-store_same mem p xs =
    slice_ext (store mem p xs) (λ k. byte_at xs k) p 0 (length xs)
      (λ k lt. let e : p + k - p ≡ 0 + k = omega arith in ground (arith, lt, ap (byte_at xs) e))
    ∙ byte_list xs

-- Two stretches of a buffer that have no byte in common.
abbrev pub Apart : ℕ → ℕ → ℕ → ℕ → Type 0
Apart p n q m = (p + n ≤ q) ⊎ (q + m ≤ p)

pub slice-store-Apart :
    (mem : Memory) (p : ℕ) (xs : List ℕ) (q n : ℕ)
    → Apart p (length xs) q n
    → slice (store mem p xs) q n ≡ slice mem q n
slice-store-Apart mem p xs q n apart =
    slice_ext (store mem p xs) mem q q n (λ k lt. ground (arith, apart))

-- A field that a later store leaves alone.
pub slice-store_kept :
    (h : Memory) (p : ℕ) (xs : List ℕ) (q n : ℕ) (ys : List ℕ)
    → Apart p (length xs) q n
    → slice h q n ≡ ys
    → slice (store h p xs) q n ≡ ys
slice-store_kept h p xs q n ys apart e = slice-store-Apart h p xs q n apart ∙ e

-- Outside the bytes that a test names, all is as it was.
pub record Keeps (changes : ℕ → Bool) (h h' : Memory) : Type 0 where
  pub at : (k : ℕ) → changes k ≡ false → h' k ≡ h k

module _ (changes : ℕ → Bool) where
  pub Keeps-refl : (h : Memory) → Keeps changes h h
  Keeps-refl h = record { at = λ k e. refl }

  pub Keeps-trans :
      (h h' h'' : Memory) → Keeps changes h h' → Keeps changes h' h'' → Keeps changes h h''
  Keeps-trans h h' h'' one two = record { at = λ k e. two.at k e ∙ one.at k e }

  pub store-Keeps :
      (h : Memory) (p : ℕ) (xs : List ℕ)
      → ((k : ℕ) → p ≤ k → k < p + length xs → changes k ≡ true)
      → Keeps changes h (store h p xs)
  store-Keeps h p xs place = record {
    at = λ k e. elim (Bool-cases (leb p k && ltb k (p + length xs))) [
      | inl inside ↦ absurd (cc (place k (ground (arith, inside)) (ground (arith, inside)), e))
      | inr outside ↦ rw outside refl
    ];
  }
