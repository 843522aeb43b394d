-- ===== src/Spa/Entries/Confined.antt =====
-- Where `getSpaInfo` writes.
use mathlib.Core.Path.{subst}
use xe_build.Base.{
  ℕ, zero, suc, ◌+◌, ◌≤◌, ◌≡◌, Bool, true, false, ◌&&◌, ◌||◌, Option, none, some, List, length,
  arith, ltb, leb, ◌==◌, Bool-cases, Option-cases, inl, inr, u32,
}
use xe_build.Bytes.{bytes32}
use xe_build.Svod.Disc.{Memory, slice, store}
use xe_build.Xex.Info.{word_at}
use xe_build.Header.{thumbnail_at, title_thumbnail_at, thumbnail_size_at, title_thumbnail_size_at}
use xe_build.Header.Stores.{Keeps, Keeps-refl, Keeps-trans, store-Keeps}
use xe_build.Spa.Frame.{is_text, KeepsRest, length-slice}
use xe_build.Spa.Strings.{Document, Parsed, Inflated, parse_strings_xrsc}
use xe_build.Spa.Strings.Frame.{KeepsIn, parse_strings_xrsc-KeepsIn}
use xe_build.Spa.Entries.{
  get_entry_info, base_off, is_icon, is_xsrc, entry_start, entry_end, store_icon, Found,
  scan_entries, get_spa_info,
}

-- The texts, the two icons and their sizes.
abbrev pub is_resource : ℕ → Bool
is_resource k =
    is_text k
    || ((leb thumbnail_size_at k && ltb k (thumbnail_at + 0x3d00))
        || (leb title_thumbnail_at k && ltb k (title_thumbnail_at + 0x3d00)))

-- All other bytes are as they were.
abbrev pub KeepsOther : Memory → Memory → Type 0
KeepsOther h h' = Keeps is_resource h h'

KeepsRest-KeepsOther : (h h' : Memory) → KeepsRest h h' → KeepsOther h h'
KeepsRest-KeepsOther h h' kept = record { at = λ k e. kept.at k (ground (arith, e)) }

store_icon-KeepsOther :
    (spa : Memory) (start len : ℕ) (h : Memory)
    → len ≤ 0x3d00
    → KeepsOther h (store_icon spa start len h)
unfolding store_icon
store_icon-KeepsOther spa start len h le =
    let icon = slice spa start len in
    let fits : length icon ≡ len = length-slice spa start len in
    let h₁ = store h thumbnail_at icon in
    let h₂ = store h₁ title_thumbnail_at icon in
    let h₃ = store h₂ thumbnail_size_at (bytes32 len) in
    let h₄ = store h₃ title_thumbnail_size_at (bytes32 len) in
    Keeps-trans is_resource h h₁ h₄
      (store-Keeps is_resource h thumbnail_at icon (λ k ge lt. ground (arith, ge, lt, fits, le)))
      (Keeps-trans is_resource h₁ h₂ h₄
        (store-Keeps is_resource h₁ title_thumbnail_at icon
          (λ k ge lt. ground (arith, ge, lt, fits, le)))
        (Keeps-trans is_resource h₂ h₃ h₄
          (store-Keeps is_resource h₂ thumbnail_size_at (bytes32 len)
            (λ k ge lt. ground (arith, ge, lt)))
          (store-Keeps is_resource h₃ title_thumbnail_size_at (bytes32 len)
            (λ k ge lt. ground (arith, ge, lt)))))

abbrev KeepsOtherIn : Memory → Option Parsed → Type 0
KeepsOtherIn h none = Unit
KeepsOtherIn h (some r) = KeepsOther h r.header

KeepsOtherIn-trans :
    (h h' : Memory) (o : Option Parsed) → KeepsOther h h' → KeepsOtherIn h' o → KeepsOtherIn h o
KeepsOtherIn-trans h h' none one two = tt
KeepsOtherIn-trans h h' (some r) one two = Keeps-trans is_resource h h' r.header one two

module _ (to_wide : List ℕ → List ℕ) (inflate : Memory → ℕ → ℕ → Inflated)
    (read_xml : Memory → ℕ → Option Document) (alloc : ℕ → Bool) where
  scan_entries-KeepsOther :
      (left : ℕ) (spa : Memory) (spa_len base off : ℕ) (f : Found)
      → KeepsOtherIn f.header
          (scan_entries to_wide inflate read_xml alloc left spa spa_len base off f)
  unfolding scan_entries
  scan_entries-KeepsOther zero spa spa_len base off f = Keeps-refl is_resource f.header
  scan_entries-KeepsOther (suc left) spa spa_len base off f =
      let e = get_entry_info spa off in
      let start = entry_start base e in
      let next = u32 (off + 0x12) in
      elim (Bool-cases (leb (entry_end base e) spa_len)) [
        | inr out ↦ rw (out, scan_entries) (Keeps-refl is_resource f.header)
        | inl within ↦ elim (Bool-cases (is_icon e)) [
          | inl icon ↦ elim (Bool-cases (leb e.len 0x3d00)) [
            | inr big ↦ rw (within, icon, big, scan_entries) (Keeps-refl is_resource f.header)
            | inl fits ↦
                let f' : Found = record f {
                  has_icon = true;
                  header = store_icon spa start e.len f.header;
                } in
                rw (within, icon, fits, scan_entries)
                  (KeepsOtherIn-trans f.header f'.header _
                    (store_icon-KeepsOther spa start e.len f.header (ground (arith, fits)))
                    (scan_entries-KeepsOther left spa spa_len base next f'))
          ]
          | inr other ↦ elim (Bool-cases (is_xsrc e)) [
            | inr skip ↦
                rw (within, other, skip, scan_entries)
                  (scan_entries-KeepsOther left spa spa_len base next f)
            | inl xsrc ↦
                let body : Memory = λ k. spa (start + k) in
                let kept =
                  parse_strings_xrsc-KeepsIn to_wide inflate read_xml alloc body f.header in
                elim (Option-cases
                  (parse_strings_xrsc to_wide inflate read_xml alloc body f.header)) [
                    | inl r ↦ rw (within, other, xsrc, r, scan_entries) tt
                    | inr q ↦
                        let (p, r) = q in
                        let f' : Found = record f {
                          has_name = f.has_name || p.ret;
                          header = p.header;
                        } in
                        let one =
                          KeepsRest-KeepsOther f.header p.header
                            (subst (KeepsIn f.header) r kept) in
                        rw (within, other, xsrc, r, scan_entries)
                          (KeepsOtherIn-trans f.header p.header _ one
                            (scan_entries-KeepsOther left spa spa_len base next f'))
                  ]
          ]
        ]
      ]

  -- Whatever the resources hold, and whatever libxml and zlib make of them, only the names, the
  -- descriptions, the title, the two icons and their sizes change in the header: every other byte
  -- is as it was, also where the answer is `FALSE`. Nothing is said of a run that gives no answer,
  -- because a description stands in an unknown locale or a string id is too long for its query.
  pub get_spa_info-KeepsOther :
      (spa : Memory) (spa_len : ℕ) (h : Memory) (r : Parsed)
      → get_spa_info to_wide inflate read_xml alloc spa spa_len h ≡ some r
      → KeepsOther h r.header
  unfolding get_spa_info
  get_spa_info-KeepsOther spa spa_len h r run =
      let f : Found = record { has_icon = false; has_name = false; header = h } in
      let kept : KeepsOtherIn h (get_spa_info to_wide inflate read_xml alloc spa spa_len h) =
        elim (Bool-cases (word_at spa 0 == 0x58444246 && leb (base_off spa) spa_len)) [
          | inr e ↦ rw e (Keeps-refl is_resource h)
          | inl e ↦
              rw e (scan_entries-KeepsOther (word_at spa 0xc) spa spa_len (base_off spa) 0x18 f)
        ] in
      subst (KeepsOtherIn h) run kept
