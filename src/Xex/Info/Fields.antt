-- ===== src/Xex/Info/Fields.antt =====
-- Which entry of the header a field is found at.
use xe_build.Base.{
  ℕ, zero, suc, ◌+◌, ◌*◌, ◌^◌, ◌≤◌, ◌<◌, ◌≡◌, ◌≢◌, inl, inr, refl, sym, ap, ◌∙◌, true, false,
  Option, none, some, arith, ◌==◌, Bool-cases,
}
use xe_build.Svod.Disc.{Memory}
use xe_build.Xex.Inflate.{is_negative}
use xe_build.Xex.Info.{word_at, find_field, get_xex_header_field}

-- What a search among `n` entries from `start` on may answer.
abbrev pub Answers : Memory → ℕ → ℕ → ℕ → Option ℕ → Type 0
Answers mem field start n none = (k : ℕ) → k < n → word_at mem (start + 8 * k) ≢ field
Answers mem field start n (some p) =
    (i : ℕ) × (i < n)
    × (p ≡ start + 8 * i)
    × (word_at mem p ≡ field)
    × ((k : ℕ) → k < i → word_at mem (start + 8 * k) ≢ field)

-- Entries behind one that has another field.
none_before :
    (mem : Memory) (field start n : ℕ)
    → word_at mem start ≢ field
    → ((k : ℕ) → k < n → word_at mem (start + 8 + 8 * k) ≢ field)
    → (k : ℕ) → k < suc n
    → word_at mem (start + 8 * k) ≢ field
none_before mem field start n ne h zero lt =
    let e : start + 8 * 0 ≡ start = omega arith in λ q. ne (ap (word_at mem) (sym e) ∙ q)
none_before mem field start n ne h (suc k) lt =
    let e : start + 8 * suc k ≡ start + 8 + 8 * k = omega arith in
    λ q. h k (omega arith) (ap (word_at mem) (sym e) ∙ q)

Answers-next :
    (mem : Memory) (field start n : ℕ) (o : Option ℕ)
    → word_at mem start ≢ field
    → Answers mem field (start + 8) n o
    → Answers mem field start (suc n) o
Answers-next mem field start n none ne h = none_before mem field start n ne h
Answers-next mem field start n (some p) ne h =
    let (i, lt, e, here, before) = h in
    (suc i, omega arith, omega (arith, e), here, none_before mem field start i ne before)

find_field_lem :
    (n : ℕ) (mem : Memory) (field start : ℕ)
    → Answers mem field start n (find_field n mem field start)
unfolding find_field
find_field_lem zero mem field start = λ k lt. absurd (omega (arith, lt))
find_field_lem (suc n) mem field start = elim (Bool-cases (word_at mem start == field)) [
  | inl e ↦
      rw (e, find_field)
        (0, omega arith, omega arith, ground (arith, e), λ k lt. absurd (omega (arith, lt)))
  | inr e ↦
      rw (e, find_field)
        (Answers-next mem field start n (find_field n mem field (start + 8)) (ground (arith, e))
          (find_field_lem n mem field (start + 8)))
]

-- `getXexHeaderField` gives the place of the first of the entries, as many as it is told, that has
-- the field's number, and NULL if none of them has it or the number of entries is negative.
pub get_xex_header_field_lem :
    (mem : Memory) (field n : ℕ)
    → (n < 2 ^ 31 → Answers mem field 0x18 n (get_xex_header_field mem field n))
      × (2 ^ 31 ≤ n → get_xex_header_field mem field n ≡ none)
unfolding get_xex_header_field
get_xex_header_field_lem mem field n = (
  λ lt.
      let sign : is_negative n ≡ false = ground (arith, lt) in
      rw sign (find_field_lem n mem field 0x18),
  λ le. let sign : is_negative n ≡ true = ground (arith, le) in rw sign refl,
)
