-- ===== src/Spa/Entries/Icon.antt =====
-- The header after `getSpaInfo`: the icon that it holds, and what is left alone.
use mathlib.Core.Path.{subst}
use xe_build.Base.{
  ℕ, zero, suc, ◌+◌, ◌≤◌, ◌≡◌, refl, Bool, true, false, ◌&&◌, ◌||◌, Option, none, some, List, [],
  ◌∷◌, arith, leb, ◌==◌, if◌then◌else◌, Bool-cases, Option-cases, inl, inr, u32,
}
use xe_build.Svod.Disc.{Memory}
use xe_build.Xex.Info.{word_at}
use xe_build.Spa.Frame.{KeepsRest}
use xe_build.Spa.Strings.{Document, Parsed, Inflated, parse_strings_xrsc}
use xe_build.Spa.Strings.Frame.{KeepsIn, parse_strings_xrsc-KeepsIn}
use xe_build.Spa.Entries.{
  Entry, get_entry_info, base_off, is_icon, is_xsrc, entry_start, entry_end, store_icon, Found,
  scan_entries, get_spa_info,
}
use xe_build.Spa.Entries.Frame.{HasIcon, store_icon-HasIcon, HasIcon-KeepsRest}
use xe_build.Spa.Entries.Status.{entries_from}

-- The last icon of the table, after one that was found before.
pub last_icon : List Entry → Option Entry → Option Entry
last_icon [] o = o
last_icon (e ∷ es) o = last_icon es (if is_icon e then some e else o)

-- The icon that is found stands in the header.
abbrev Shows : Memory → ℕ → Option Entry → Bool → Memory → Type 0
Shows spa base none has_icon h = has_icon ≡ false
Shows spa base (some e) has_icon h = (e.len ≤ 0x3d00) × HasIcon spa (entry_start base e) e.len h

Shows-KeepsRest :
    (spa : Memory) (base : ℕ) (o : Option Entry) (has_icon : Bool) (h h' : Memory)
    → KeepsRest h h'
    → Shows spa base o has_icon h
    → Shows spa base o has_icon h'
Shows-KeepsRest spa base none has_icon h h' kept shown = shown
Shows-KeepsRest spa base (some e) has_icon h h' kept (le, icon) =
    (le, HasIcon-KeepsRest spa (entry_start base e) e.len h h' le kept icon)

abbrev pub ShowsLast : Memory → ℕ → Option Entry → Memory → Type 0
ShowsLast spa base o h = (e : Entry) × (o ≡ some e) × HasIcon spa (entry_start base e) e.len h

Shows-ShowsLast :
    (spa : Memory) (base : ℕ) (o : Option Entry) (has_icon : Bool) (h : Memory)
    → has_icon ≡ true
    → Shows spa base o has_icon h
    → ShowsLast spa base o h
Shows-ShowsLast spa base none has_icon h found shown = absurd (cc (found, shown))
Shows-ShowsLast spa base (some e) has_icon h found (le, icon) = (e, refl, icon)

abbrev ShowsIn : Memory → ℕ → Option Entry → Option Parsed → Type 0
ShowsIn spa base o none = Unit
ShowsIn spa base o (some r) = r.ret ≡ true → ShowsLast spa base o r.header

module _ (to_wide : List ℕ → List ℕ) (inflate : Memory → ℕ → ℕ → Inflated)
    (read_xml : Memory → ℕ → Option Document) (alloc : ℕ → Bool) where
  scan_entries-ShowsIn :
      (left : ℕ) (spa : Memory) (spa_len base off : ℕ) (f : Found) (o : Option Entry)
      → Shows spa base o f.has_icon f.header
      → ShowsIn spa base
          (last_icon (entries_from left spa off) o)
          (scan_entries to_wide inflate read_xml alloc left spa spa_len base off f)
  unfolding scan_entries entries_from last_icon
  scan_entries-ShowsIn zero spa spa_len base off f o shown =
      λ ok. Shows-ShowsLast spa base o f.has_icon f.header (ground (arith, ok)) shown
  scan_entries-ShowsIn (suc left) spa spa_len base off f o shown =
      let e = get_entry_info spa off in
      let start = entry_start base e in
      let next = u32 (off + 0x12) in
      elim (Bool-cases (leb (entry_end base e) spa_len)) [
        | inr out ↦ rw (out, scan_entries) (λ ok. absurd cc)
        | inl within ↦ elim (Bool-cases (is_icon e)) [
          | inl icon ↦ elim (Bool-cases (leb e.len 0x3d00)) [
            | inr big ↦ rw (within, icon, big, scan_entries) (λ ok. absurd cc)
            | inl fits ↦
                let last : last_icon (entries_from (suc left) spa off) o
                    ≡ last_icon (entries_from left spa next) (some e) =
                  rw (icon, last_icon) refl in
                let le : e.len ≤ 0x3d00 = ground (arith, fits) in
                let f' : Found = record f {
                  has_icon = true;
                  header = store_icon spa start e.len f.header;
                } in
                rw (last, within, icon, fits, scan_entries)
                  (scan_entries-ShowsIn left spa spa_len base next f' (some e)
                    (le, store_icon-HasIcon spa start e.len f.header le))
          ]
          | inr other ↦
              let last : last_icon (entries_from (suc left) spa off) o
                  ≡ last_icon (entries_from left spa next) o =
                rw (other, last_icon) refl in
              elim (Bool-cases (is_xsrc e)) [
                | inr skip ↦
                    rw (last, within, other, skip, scan_entries)
                      (scan_entries-ShowsIn left spa spa_len base next f o shown)
                | inl xsrc ↦
                    let body : Memory = λ k. spa (start + k) in
                    let kept =
                      parse_strings_xrsc-KeepsIn to_wide inflate read_xml alloc body f.header in
                    elim (Option-cases
                      (parse_strings_xrsc to_wide inflate read_xml alloc body f.header)) [
                        | inl r ↦ rw (within, other, xsrc, r, scan_entries) tt
                        | inr q ↦
                            let (p, r) = q in
                            let f' : Found = record f {
                              has_name = f.has_name || p.ret;
                              header = p.header;
                            } in
                            rw (last, within, other, xsrc, r, scan_entries)
                              (scan_entries-ShowsIn left spa spa_len base next f' o (
                                Shows-KeepsRest spa base o f.has_icon f.header p.header
                                  (subst (KeepsIn f.header) r kept) shown))
                      ]
              ]
        ]
      ]

  -- When `getSpaInfo` answers `TRUE`, the header holds the last icon of the table, as the thumbnail
  -- and as that of the title, each with its size before it: no text that is stored later overwrites
  -- a byte of them.
  pub get_spa_info-ShowsLast :
      (spa : Memory) (spa_len : ℕ) (h : Memory) (r : Parsed)
      → get_spa_info to_wide inflate read_xml alloc spa spa_len h ≡ some r
      → r.ret ≡ true
      → ShowsLast spa
          (base_off spa)
          (last_icon (entries_from (word_at spa 0xc) spa 0x18) none)
          r.header
  unfolding get_spa_info
  get_spa_info-ShowsLast spa spa_len h r run ok =
      let f : Found = record { has_icon = false; has_name = false; header = h } in
      let last = last_icon (entries_from (word_at spa 0xc) spa 0x18) none in
      let shown : ShowsIn spa (base_off spa) last
          (get_spa_info to_wide inflate read_xml alloc spa spa_len h) =
        elim (Bool-cases (word_at spa 0 == 0x58444246 && leb (base_off spa) spa_len)) [
          | inr e ↦ rw e (λ t. absurd cc)
          | inl e ↦
              rw e
                (scan_entries-ShowsIn (word_at spa 0xc) spa spa_len (base_off spa) 0x18 f none refl)
        ] in
      subst (ShowsIn spa (base_off spa) last) run shown ok
