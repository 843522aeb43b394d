-- ===== src/Spa/Frame.antt =====
-- Where `getSpaInfo` writes.
use mathlib.Core.Option
use mathlib.Core.Path.{subst}
use xe_build.Base.{
  ℕ, zero, suc, ◌+◌, ◌-◌, ◌*◌, ◌≤◌, ◌<◌, ◌≡◌, inl, inr, refl, sym, ap, ◌∙◌, Bool, true, ◌&&◌, ◌||◌,
  none, some, List, [], ◌∷◌, length, length-replicate, replicate, arith, ltb, leb, if◌then◌else◌,
  Bool-cases, Option-cases,
}
use xe_build.Svod.Disc.{Memory, slice, store}
use xe_build.Svod.Scan.{same_text}
use xe_build.Header.{meta, display_name_ex_at, description_ex_at, title_name_at}
use xe_build.Header.Stores.{Keeps, Keeps-refl, Keeps-trans, store-Keeps}
use xe_build.Spa.{
  locales, find_locale, name_row, desc_row, convert_locale_to_name, convert_locale_to_desc,
  convert_ident_to_name, convert_ident_to_desc, swapped_chars, endian_copy_wchar_buf, has_text,
  title_from, fix_title_name, titles_from, copy_titles_to_description,
}

-- The bytes of the header that hold the names, the descriptions and the title.
abbrev pub is_text : ℕ → Bool
is_text k =
    (leb (meta + 0xcd) k && ltb k (meta + 0x12cd))
    || ((leb title_name_at k && ltb k (title_name_at + 0x80))
        || ((leb (display_name_ex_at 0) k && ltb k (display_name_ex_at 3))
            || (leb (description_ex_at 0) k && ltb k (description_ex_at 3))))

-- All other bytes are as they were.
abbrev pub KeepsRest : Memory → Memory → Type 0
KeepsRest h h' = Keeps is_text h h'

pub KeepsRest-refl : (h : Memory) → KeepsRest h h
KeepsRest-refl h = Keeps-refl is_text h

pub KeepsRest-trans : (h h' h'' : Memory) → KeepsRest h h' → KeepsRest h' h'' → KeepsRest h h''
KeepsRest-trans h h' h'' one two = Keeps-trans is_text h h' h'' one two

-- A stretch of such bytes.
abbrev pub IsPlace : ℕ → ℕ → Type 0
IsPlace p n = (k : ℕ) → p ≤ k → k < p + n → is_text k ≡ true

pub store-KeepsRest :
    (h : Memory) (p n : ℕ) (xs : List ℕ) → IsPlace p n → length xs ≤ n → KeepsRest h (store h p xs)
store-KeepsRest h p n xs place le =
    store-Keeps is_text h p xs (λ k ge lt. place k ge (omega (arith, lt, le)))

pub length-slice : (mem : Memory) (p n : ℕ) → length (slice mem p n) ≡ n
unfolding slice
length-slice mem p zero = refl
length-slice mem p (suc n) = ap suc (length-slice mem (p + 1) n)

-- The rows of the header.
pub find_locale_bound :
    (ls : List (List ℕ)) (i : ℕ) (loc : List ℕ) (j : ℕ)
    → find_locale ls i loc ≡ some j
    → j < i + length ls
unfolding find_locale
find_locale_bound [] i loc j e = absurd cc
find_locale_bound (l ∷ ls) i loc j e = elim (Bool-cases (same_text l loc)) [
  | inl same ↦
      let found : find_locale (l ∷ ls) i loc ≡ some i = rw (same, find_locale) refl in
      let here = Option.some-injective i j (sym found ∙ e) in omega (arith, here)
  | inr other ↦
      let next : find_locale (l ∷ ls) i loc ≡ find_locale ls (i + 1) loc =
        rw (other, find_locale) refl in
      omega (arith, find_locale_bound ls (i + 1) loc j (sym next ∙ e))
]

name_row-IsPlace : (i : ℕ) → i < 12 → IsPlace (name_row i) 0x100
name_row-IsPlace i lt k ge le = ground (arith, lt, ge, le)

desc_row-IsPlace : (i : ℕ) → i < 12 → IsPlace (desc_row i) 0x100
desc_row-IsPlace i lt k ge le = ground (arith, lt, ge, le)

pub length-swapped_chars : (n : ℕ) (cs : List ℕ) → length (swapped_chars n cs) ≤ n * 2
unfolding swapped_chars
length-swapped_chars zero cs = omega arith
length-swapped_chars (suc n) [] = omega arith
length-swapped_chars (suc n) (c ∷ cs) = omega (arith, length-swapped_chars n cs)

pub endian_copy-KeepsRest :
    (cs : List ℕ) (m p n : ℕ) (h : Memory)
    → IsPlace p (n * 2)
    → KeepsRest h (endian_copy_wchar_buf cs m p n h)
unfolding endian_copy_wchar_buf
endian_copy-KeepsRest cs m p n h place =
    let zeros : List ℕ = replicate (n * 2) 0 in
    let len = if ltb m (n - 1) then m else n - 1 in
    KeepsRest-trans h (store h p zeros) _
      (store-KeepsRest h p (n * 2) zeros place (omega (arith, length-replicate {A = ℕ} (n * 2) 0)))
      (store-KeepsRest (store h p zeros) p (n * 2) (swapped_chars len cs) place
        (ground (arith, length-swapped_chars len cs)))

-- The places for the texts.
pub title-IsPlace : IsPlace title_name_at 0x80
title-IsPlace k ge le = ground (arith, ge, le)

pub ident-IsPlace :
    (ident : ℕ) → 1 ≤ ident → ident ≤ 12 → IsPlace (convert_ident_to_desc ident) 0x100
ident-IsPlace ident low high k ge le = ground (arith, low, high, ge, le)

-- The row of a locale that is known.
pub convert_locale :
    (row : ℕ → ℕ) (loc : List ℕ) (p : ℕ)
    → Option.map row (find_locale locales 0 loc) ≡ some p
    → (i : ℕ) × (i < 12) × (p ≡ row i)
convert_locale row loc p e = elim (Option-cases (find_locale locales 0 loc)) [
  | inl f ↦
      let unknown : Option.map row (find_locale locales 0 loc) ≡ none = ap (Option.map row) f in
      absurd (cc (unknown, e))
  | inr f ↦
      let (i, found) = f in
      let known : Option.map row (find_locale locales 0 loc) ≡ some (row i) =
        ap (Option.map row) found in
      (i, find_locale_bound locales 0 loc i found, Option.some-injective p (row i) (sym e ∙ known))
]

pub name-IsPlace : (loc : List ℕ) (p : ℕ) → convert_locale_to_name loc ≡ some p → IsPlace p 0x100
unfolding convert_locale_to_name
name-IsPlace loc p e =
    let (i, lt, at) = convert_locale name_row loc p e in
    subst (λ q. IsPlace q 0x100) (sym at) (name_row-IsPlace i lt)

pub desc-IsPlace : (loc : List ℕ) (p : ℕ) → convert_locale_to_desc loc ≡ some p → IsPlace p 0x100
unfolding convert_locale_to_desc
desc-IsPlace loc p e =
    let (i, lt, at) = convert_locale desc_row loc p e in
    subst (λ q. IsPlace q 0x100) (sym at) (desc_row-IsPlace i lt)

-- A smaller place.
pub IsPlace-part : (p n m : ℕ) → m ≤ n → IsPlace p n → IsPlace p m
IsPlace-part p n m le place k ge lt = place k ge (omega (arith, le, lt))

-- The loops over the languages.
title_from-KeepsRest : (left ident : ℕ) (h : Memory) → KeepsRest h (title_from left ident h)
unfolding title_from
title_from-KeepsRest zero ident h = KeepsRest-refl h
title_from-KeepsRest (suc left) ident h =
    let row = convert_ident_to_name ident in
    elim (Bool-cases (has_text h row)) [
      | inl e ↦
          rw (e, title_from)
            (store-KeepsRest h title_name_at 0x80 (slice h row 0x80) title-IsPlace
              (omega (arith, length-slice h row 0x80)))
      | inr e ↦ rw (e, title_from) (title_from-KeepsRest left (ident + 1) h)
    ]

pub fix_title_name-KeepsRest : (h : Memory) → KeepsRest h (fix_title_name h)
unfolding fix_title_name
fix_title_name-KeepsRest h = elim (Bool-cases (has_text h title_name_at)) [
  | inl e ↦ rw e (KeepsRest-refl h)
  | inr e ↦ rw e (title_from-KeepsRest 12 1 h)
]

titles_from-KeepsRest :
    (left ident : ℕ) (h : Memory)
    → 1 ≤ ident
    → ident + left ≤ 13
    → KeepsRest h (titles_from left ident h)
unfolding titles_from
titles_from-KeepsRest zero ident h low high = KeepsRest-refl h
titles_from-KeepsRest (suc left) ident h low high =
    let row = convert_ident_to_name ident in
    let h' =
      if has_text h row then store h (convert_ident_to_desc ident) (slice h row 0x100) else h in
    let one : KeepsRest h h' = elim (Bool-cases (has_text h row)) [
      | inl e ↦ rw e (
          store-KeepsRest h (convert_ident_to_desc ident) 0x100 (slice h row 0x100)
            (ident-IsPlace ident low (omega (arith, high)))
            (omega (arith, length-slice h row 0x100)))
      | inr e ↦ rw e (KeepsRest-refl h)
    ] in
    KeepsRest-trans h h' (titles_from left (ident + 1) h') one
      (titles_from-KeepsRest left (ident + 1) h' (omega arith) (omega (arith, high)))

pub copy_titles-KeepsRest : (h : Memory) → KeepsRest h (copy_titles_to_description h)
unfolding copy_titles_to_description
copy_titles-KeepsRest h = titles_from-KeepsRest 12 1 h (omega arith) (omega arith)
