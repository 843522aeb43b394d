-- ===== src/Spa/Entries/Status.antt =====
-- When `getSpaInfo` succeeds, from the entries alone.
use mathlib.Core.Option
use xe_build.Base.{
  ℕ, zero, suc, ◌+◌, ◌≡◌, refl, sym, ap, ◌∙◌, Bool, true, false, not, ◌&&◌, ◌||◌, Option, none,
  some, List, [], ◌∷◌, leb, ◌==◌, if◌then◌else◌, Bool-cases, Option-cases, inl, inr, is_some, u32,
}
use xe_build.Svod.Disc.{Memory}
use xe_build.Xex.Info.{word_at}
use xe_build.Spa.Strings.{Document, Parsed, Inflated, parse_strings_xrsc}
use xe_build.Spa.Strings.Status.{xrsc_status, parse_strings_xrsc_status}
use xe_build.Spa.Entries.{
  Entry, get_entry_info, base_off, is_icon, is_xsrc, entry_start, entry_end, store_icon, Found,
  scan_entries, get_spa_info,
}

-- The entries of the table from an offset on.
unfoldable pub entries_from : ℕ → Memory → ℕ → List Entry
entries_from zero spa off = []
entries_from (suc left) spa off = get_entry_info spa off ∷ entries_from left spa (u32 (off + 0x12))

unfoldable pub all_of {ℓ} : {A : Type ℓ} → (A → Bool) → List A → Bool
all_of p [] = true
all_of p (x ∷ xs) = p x && all_of p xs

unfoldable pub any_of {ℓ} : {A : Type ℓ} → (A → Bool) → List A → Bool
any_of p [] = false
any_of p (x ∷ xs) = p x || any_of p xs

-- The answer `TRUE`, and any answer at all.
abbrev pub is_success : Option Bool → Bool
is_success none = false
is_success (some b) = b

abbrev pub succeeds : Option Parsed → Bool
succeeds o = is_success (Option.map (λ r. r.ret) o)

-- An answer `TRUE` with the header that comes with it.
pub succeeds-some :
    (o : Option Parsed) → succeeds o ≡ true → (r : Parsed) × (o ≡ some r) × (r.ret ≡ true)
succeeds-some none e = absurd cc
succeeds-some (some r) e = (r, refl, e)

module _ (to_wide : List ℕ → List ℕ) (inflate : Memory → ℕ → ℕ → Inflated)
    (read_xml : Memory → ℕ → Option Document) (alloc : ℕ → Bool) where
  -- What is asked of every entry, and the entry that gives the names.
  abbrev pub entry_status : Memory → ℕ → Entry → Option Bool
  entry_status spa base e =
      xrsc_status to_wide inflate read_xml alloc (λ k. spa (entry_start base e + k))

  abbrev pub is_fine : Memory → ℕ → ℕ → Entry → Bool
  is_fine spa spa_len base e =
      leb (entry_end base e) spa_len
      && (if is_icon e
          then leb e.len 0x3d00
          else (not (is_xsrc e) || is_some (entry_status spa base e)))

  abbrev pub is_named : Memory → ℕ → Entry → Bool
  is_named spa base e = not (is_icon e) && (is_xsrc e && is_success (entry_status spa base e))

  abbrev pub accepted : Memory → ℕ → Bool
  accepted spa spa_len =
      let es = entries_from (word_at spa 0xc) spa 0x18 in
      (word_at spa 0 == 0x58444246 && leb (base_off spa) spa_len)
      && (all_of (is_fine spa spa_len (base_off spa)) es
          && (any_of is_icon es && any_of (is_named spa (base_off spa)) es))

  -- An entry is counted before or after those that are left.
  both_or : (i n : Bool) → (i && n) ≡ (true && ((i || false) && (n || false)))
  both_or true true = refl
  both_or true false = refl
  both_or false n = refl

  or_shift : (i x y : Bool) → ((i || x) || y) ≡ (i || (x || y))
  or_shift true x y = refl
  or_shift false x y = refl

  one_more :
      (all i i' x xs n n' y ys : Bool)
      → i' ≡ (i || x)
      → n' ≡ (n || y)
      → (all && ((i' || xs) && (n' || ys)))
        ≡ ((true && all) && ((i || (x || xs)) && (n || (y || ys))))
  one_more all i i' x xs n n' y ys ie ne = rw (ie, ne, or_shift i x xs, or_shift n y ys) refl

  or_false : (b : Bool) → b ≡ (b || false)
  or_false true = refl
  or_false false = refl

  or_true : (b : Bool) → true ≡ (b || true)
  or_true true = refl
  or_true false = refl

  scan_entries_lem :
      (left : ℕ) (spa : Memory) (spa_len base off : ℕ) (f : Found)
      → let es = entries_from left spa off in
        succeeds (scan_entries to_wide inflate read_xml alloc left spa spa_len base off f) ≡ (
          all_of (is_fine spa spa_len base) es
          && ((f.has_icon || any_of is_icon es) && (f.has_name || any_of (is_named spa base) es)))
  unfolding scan_entries entries_from all_of any_of
  scan_entries_lem zero spa spa_len base off f = both_or (f.has_icon) (f.has_name)
  scan_entries_lem (suc left) spa spa_len base off f =
      let e = get_entry_info spa off in
      let next = u32 (off + 0x12) in
      let rest = entries_from left spa next in
      elim (Bool-cases (leb (entry_end base e) spa_len)) [
        | inr out ↦ rw (out, scan_entries) refl
        | inl within ↦ elim (Bool-cases (is_icon e)) [
          | inl icon ↦ elim (Bool-cases (leb e.len 0x3d00)) [
            | inr big ↦ rw (within, icon, big, scan_entries) refl
            | inl fits ↦
                let f' : Found = record f {
                  has_icon = true;
                  header = store_icon spa (entry_start base e) e.len f.header;
                } in
                rw (within, icon, fits, scan_entries)
                  (scan_entries_lem left spa spa_len base next f'
                    ∙ one_more (all_of (is_fine spa spa_len base) rest) f.has_icon true true
                        (any_of is_icon rest) f.has_name f.has_name false
                        (any_of (is_named spa base) rest) (or_true f.has_icon)
                        (or_false f.has_name))
          ]
          | inr other ↦ elim (Bool-cases (is_xsrc e)) [
            | inr skip ↦
                rw (within, other, skip, scan_entries)
                  (scan_entries_lem left spa spa_len base next f
                    ∙ one_more (all_of (is_fine spa spa_len base) rest) f.has_icon f.has_icon false
                        (any_of is_icon rest) f.has_name f.has_name false
                        (any_of (is_named spa base) rest) (or_false f.has_icon)
                        (or_false f.has_name))
            | inl xsrc ↦
                let xrsc : Memory = λ k. spa (entry_start base e + k) in
                let status =
                  parse_strings_xrsc_status to_wide inflate read_xml alloc xrsc f.header in
                elim (Option-cases
                  (parse_strings_xrsc to_wide inflate read_xml alloc xrsc f.header)) [
                    | inl r ↦
                        let u : entry_status spa base e ≡ none =
                          sym status ∙ ap (Option.map (λ p. p.ret)) r in
                        rw (within, other, xsrc, r, u, scan_entries) refl
                    | inr q ↦
                        let (p, r) = q in
                        let u : entry_status spa base e ≡ some p.ret =
                          sym status ∙ ap (Option.map (λ p. p.ret)) r in
                        let f' : Found = record f {
                          has_name = f.has_name || p.ret;
                          header = p.header;
                        } in
                        rw (within, other, xsrc, r, u, scan_entries)
                          (scan_entries_lem left spa spa_len base next f'
                            ∙ one_more (all_of (is_fine spa spa_len base) rest) f.has_icon
                                f.has_icon false (any_of is_icon rest) f.has_name
                                (f.has_name || p.ret) p.ret (any_of (is_named spa base) rest)
                                (or_false f.has_icon) refl)
                  ]
          ]
        ]
      ]

  pub get_spa_info_lem :
      (spa : Memory) (spa_len : ℕ) (h : Memory)
      → succeeds (get_spa_info to_wide inflate read_xml alloc spa spa_len h) ≡ accepted spa spa_len
  unfolding get_spa_info
  get_spa_info_lem spa spa_len h =
      let f : Found = record { has_icon = false; has_name = false; header = h } in
      elim (Bool-cases (word_at spa 0 == 0x58444246 && leb (base_off spa) spa_len)) [
        | inr e ↦ rw e refl
        | inl e ↦ rw e (scan_entries_lem (word_at spa 0xc) spa spa_len (base_off spa) 0x18 f)
      ]
