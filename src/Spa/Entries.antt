-- ===== src/Spa/Entries.antt =====
-- `getSpaInfo` of spa.c: the entries of the resources give the icon and the texts. The size of the
-- resources is tested against the ends of the entries in 32 bits, as the code does it.
pub mod Frame
pub mod Status
pub mod Icon
pub mod Confined
use xe_build.Base.{
  ℕ, zero, suc, ◌+◌, ◌*◌, Bool, true, false, ◌&&◌, ◌||◌, Option, none, some, List, ltb, leb, ◌==◌,
  if◌then◌else◌, u32,
}
use xe_build.Bytes.{bytes32, get_be16, get_be32, get_be64}
use xe_build.Svod.Disc.{Memory, slice, store}
use xe_build.Xex.Info.{word_at, half_at}
use xe_build.Header.{thumbnail_at, title_thumbnail_at, thumbnail_size_at, title_thumbnail_size_at}
use xe_build.Spa.Strings.{Document, Parsed, Inflated, parse_strings_xrsc}

-- `XBDF_ENTRY`, and `getEntryInfo`.
pub record Entry : Type 0 where
  pub kind : ℕ
  pub ident : ℕ
  pub offset : ℕ
  pub len : ℕ

unfoldable pub get_entry_info : Memory → ℕ → Entry
get_entry_info spa p = record {
  kind = half_at spa p;
  ident = get_be64 (slice spa (p + 2) 8) 0;
  offset = word_at spa (p + 0xa);
  len = word_at spa (p + 0xe);
}

-- `baseOff`, from the header of the resources.
abbrev pub base_off : Memory → ℕ
base_off spa = u32 (u32 (word_at spa 8 * 18) + u32 (word_at spa 0x10 * 8) + 0x18)

abbrev pub is_icon : Entry → Bool
is_icon e = e.kind == 2 && e.ident == 0x8000

abbrev pub is_xsrc : Entry → Bool
is_xsrc e = e.kind == 1 && e.ident == 0x58535243

-- Where the bytes of an entry start, and the end that is tested.
abbrev pub entry_start : ℕ → Entry → ℕ
entry_start base e = u32 (e.offset + base)

abbrev pub entry_end : ℕ → Entry → ℕ
entry_end base e = u32 (u32 (e.offset + base) + e.len)

pub store_icon : Memory → ℕ → ℕ → Memory → Memory
store_icon spa start len h =
    let h = store h thumbnail_at (slice spa start len) in
    let h = store h title_thumbnail_at (slice spa start len) in
    let h = store h thumbnail_size_at (bytes32 len) in store h title_thumbnail_size_at (bytes32 len)

-- `hasIcon`, `hasName` and the header.
pub record Found : Type 0 where
  pub has_icon : Bool
  pub has_name : Bool
  pub header : Memory

module _ (to_wide : List ℕ → List ℕ) (inflate : Memory → ℕ → ℕ → Inflated)
    (read_xml : Memory → ℕ → Option Document) (alloc : ℕ → Bool) where
  -- The loop over the entries, with those that are left.
  pub scan_entries : ℕ → Memory → ℕ → ℕ → ℕ → Found → Option Parsed
  scan_entries zero spa spa_len base curr_off f =
      some (record { ret = f.has_icon && f.has_name; header = f.header })
  scan_entries (suc left) spa spa_len base curr_off f =
      let e = get_entry_info spa curr_off in
      let start = entry_start base e in
      elim (leb (entry_end base e) spa_len) [
        | false ↦ some (record { ret = false; header = f.header })
        | true ↦ elim (is_icon e) [
          | true ↦ elim (leb e.len 0x3d00) [
            | false ↦ some (record { ret = false; header = f.header })
            | true ↦
                scan_entries left spa spa_len base (u32 (curr_off + 0x12))
                  (record f { has_icon = true; header = store_icon spa start e.len f.header })
          ]
          | false ↦ elim (is_xsrc e) [
            | false ↦ scan_entries left spa spa_len base (u32 (curr_off + 0x12)) f
            | true ↦
                elim (parse_strings_xrsc to_wide inflate read_xml alloc (λ k. spa (start + k))
                  f.header) [
                    | none ↦ none
                    | some p ↦
                        scan_entries left spa spa_len base (u32 (curr_off + 0x12))
                          (record f { has_name = f.has_name || p.ret; header = p.header })
                  ]
          ]
        ]
      ]

  -- `none` stands for undefined behaviour: a description in an unknown locale, or a string id that
  -- is too long for its query.
  pub get_spa_info : Memory → ℕ → Memory → Option Parsed
  get_spa_info spa spa_len h =
      if word_at spa 0 == 0x58444246 && leb (base_off spa) spa_len
      then scan_entries (word_at spa 0xc) spa spa_len (base_off spa) 0x18
          (record { has_icon = false; has_name = false; header = h })
      else some (record { ret = false; header = h })
