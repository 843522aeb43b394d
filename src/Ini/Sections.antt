-- ===== src/Ini/Sections.antt =====
-- The items that `main` of tools/ini_creator/ini_creator/main.c prints for the bootloaders.
use xe_build.Base.{
  ℕ, ◌+◌, ◌≡◌, refl, true, false, List, [], ◌∷◌, ◌++◌, arith, ◌!=◌, if◌then◌else◌, inl, inr,
  Bool-cases,
}
use xe_build.Ini.{
  Entry, Range, Title, Line, title, number, item, in_section, show_bls, display_bls, has_common,
  common_items, show_common, bootloader_lines,
}

-- The sum of a weight over the items of an output, and over the entries that are still to be
-- listed. Sums that agree for every weight say that the items are the same, as often.
pub item_weight : (List ℕ → ℕ → ℕ) → List Line → ℕ
item_weight w [] = 0
item_weight w (item name crc ∷ ls) = w name crc + item_weight w ls
item_weight w (l ∷ ls) = item_weight w ls

pub live_weight : (List ℕ → ℕ → ℕ) → List Entry → ℕ
live_weight w [] = 0
live_weight w (e ∷ es) = (if e.magic != 0 then w e.name e.crc else 0) + live_weight w es

module _ (w : List ℕ → ℕ → ℕ) where
  item_weight-append :
      (xs ys : List Line) → item_weight w (xs ++ ys) ≡ item_weight w xs + item_weight w ys
  unfolding item_weight
  item_weight-append [] ys = omega arith
  item_weight-append (item name crc ∷ xs) ys = omega (arith, item_weight-append xs ys)
  item_weight-append (title t ∷ xs) ys = item_weight-append xs ys
  item_weight-append (number n ∷ xs) ys = item_weight-append xs ys

  in_section-live : (r : Range) (e : Entry) → in_section r e ≡ true → (e.magic != 0) ≡ true
  unfolding in_section
  in_section-live r e h = ground arith

  show_bls_weight :
      (r : Range) (es : List Entry)
      → let (out, es') = show_bls r es in item_weight w out + live_weight w es' ≡ live_weight w es
  unfolding show_bls item_weight live_weight
  show_bls_weight r [] = refl
  show_bls_weight r (e ∷ es) = elim (Bool-cases (in_section r e)) [
    | inl h ↦ rw (h, in_section-live r e h) (omega (arith, show_bls_weight r es))
    | inr h ↦ rw h (omega (arith, show_bls_weight r es))
  ]

  display_bls_weight :
      (name : Title) (r : Range) (es : List Entry)
      → let (out, es') = display_bls name r es in
        item_weight w out + live_weight w es' ≡ live_weight w es
  unfolding display_bls item_weight
  display_bls_weight name r es = ground (arith, show_bls_weight r es)

  common_items_weight : (es : List Entry) → item_weight w (common_items es) ≡ live_weight w es
  unfolding common_items item_weight live_weight
  common_items_weight [] = refl
  common_items_weight (e ∷ es) = ground (arith, common_items_weight es)

  no_common : (es : List Entry) → has_common es ≡ false → live_weight w es ≡ 0
  unfolding has_common live_weight
  no_common [] h = refl
  no_common (e ∷ es) h = ground (arith, no_common es)

  show_common_weight : (es : List Entry) → item_weight w (show_common es) ≡ live_weight w es
  unfolding show_common item_weight
  show_common_weight es = ground (arith, common_items_weight es, no_common es)

  -- Every bootloader with a magic is printed exactly once, in one of the sections or among the
  -- common ones, and nothing else is: whatever weight an item has, what is printed weighs as much
  -- as the bootloaders that were accepted.
  pub bootloader_lines_weight :
      (rest : List (Title × Range)) (es : List Entry)
      → item_weight w (bootloader_lines rest es) ≡ live_weight w es
  unfolding bootloader_lines
  bootloader_lines_weight [] es = show_common_weight es
  bootloader_lines_weight ((name, r) ∷ rest) es =
      let (out, es') = display_bls name r es in
      omega (
        arith,
        item_weight-append out (bootloader_lines rest es'),
        display_bls_weight name r es,
        bootloader_lines_weight rest es',
      )
