-- ===== src/Spa.antt =====
-- tools/iso2svod/source/spa.c: the title's texts and icon are taken from the resources of an
-- executable into the package header. Here are the places of the texts and the copying of one; a
-- pointer into `xMeta` is a place in the header, and a text of wide characters a list of numbers.
pub mod Strings
pub mod Entries
pub mod Frame
pub mod Chars
use mathlib.Core.Option
use xe_build.Base.{
  ℕ, zero, suc, ◌+◌, ◌-◌, ◌*◌, Bool, true, false, Option, none, some, List, [], ◌∷◌, ◌++◌, length,
  take, replicate, ltb, ◌!=◌, if◌then◌else◌,
}
use xe_build.Bytes.{bytes16, get_le16}
use xe_build.Svod.Disc.{Memory, slice, store}
use xe_build.Svod.Scan.{same_text}
use xe_build.Header.{
  display_name_at, display_name_ex_at, description_at, description_ex_at, title_name_at,
}

-- `locales`.
abbrev pub locales : List (List ℕ)
locales =
    (0x65 ∷ 0x6e ∷ 0x2d ∷ 0x55 ∷ 0x53 ∷ [])
    ∷ (0x6a ∷ 0x61 ∷ 0x2d ∷ 0x4a ∷ 0x50 ∷ [])
    ∷ (0x64 ∷ 0x65 ∷ 0x2d ∷ 0x44 ∷ 0x45 ∷ [])
    ∷ (0x66 ∷ 0x72 ∷ 0x2d ∷ 0x46 ∷ 0x52 ∷ [])
    ∷ (0x65 ∷ 0x73 ∷ 0x2d ∷ 0x45 ∷ 0x53 ∷ [])
    ∷ (0x69 ∷ 0x74 ∷ 0x2d ∷ 0x49 ∷ 0x54 ∷ [])
    ∷ (0x6b ∷ 0x6f ∷ 0x2d ∷ 0x4b ∷ 0x52 ∷ [])
    ∷ (0x7a ∷ 0x68 ∷ 0x2d ∷ 0x43 ∷ 0x48 ∷ 0x54 ∷ [])
    ∷ (0x70 ∷ 0x74 ∷ 0x2d ∷ 0x50 ∷ 0x54 ∷ [])
    ∷ (0x7a ∷ 0x68 ∷ 0x2d ∷ 0x43 ∷ 0x4e ∷ [])
    ∷ (0x70 ∷ 0x6c ∷ 0x2d ∷ 0x50 ∷ 0x4c ∷ [])
    ∷ (0x72 ∷ 0x75 ∷ 0x2d ∷ 0x52 ∷ 0x55 ∷ [])
    ∷ []

-- `stricmp` against each of them, from number `i` on.
pub find_locale : List (List ℕ) → ℕ → List ℕ → Option ℕ
find_locale [] i loc = none
find_locale (l ∷ ls) i loc = elim (same_text l loc) [
  | true ↦ some i
  | false ↦ find_locale ls (i + 1) loc
]

-- The rows of the header for the number of a locale.
abbrev pub name_row : ℕ → ℕ
name_row i = if ltb 8 i then display_name_ex_at (i - 9) else display_name_at i

abbrev pub desc_row : ℕ → ℕ
desc_row i = if ltb 8 i then description_ex_at (i - 9) else description_at i

pub convert_locale_to_name : List ℕ → Option ℕ
convert_locale_to_name loc = Option.map name_row (find_locale locales 0 loc)

pub convert_locale_to_desc : List ℕ → Option ℕ
convert_locale_to_desc loc = Option.map desc_row (find_locale locales 0 loc)

abbrev pub convert_ident_to_name : ℕ → ℕ
convert_ident_to_name ident =
    if ltb 9 ident then display_name_ex_at (ident - 10) else display_name_at (ident - 1)

abbrev pub convert_ident_to_desc : ℕ → ℕ
convert_ident_to_desc ident =
    if ltb 9 ident then description_ex_at (ident - 10) else description_at (ident - 1)

-- The bytes of `n` wide characters once they are swapped, and `endianCopyWcharBuf` for a positive
-- `max_out`.
pub swapped_chars : ℕ → List ℕ → List ℕ
swapped_chars zero cs = []
swapped_chars (suc n) [] = []
swapped_chars (suc n) (c ∷ cs) = bytes16 c ++ swapped_chars n cs

pub endian_copy_wchar_buf : List ℕ → ℕ → ℕ → ℕ → Memory → Memory
endian_copy_wchar_buf le_input max_in be_out max_out h =
    let len = if ltb max_in (max_out - 1) then max_in else max_out - 1 in
    store (store h be_out (replicate (max_out * 2) 0)) be_out (swapped_chars len le_input)

-- A text that starts with a character.
abbrev pub has_text : Memory → ℕ → Bool
has_text h p = get_le16 (slice h p 2) 0 != 0

-- The loop of `fixTitleName` from `ident` on, and that of `copyTitlesToDescription`; `left` counts
-- the rounds up to 0xD.
pub title_from : ℕ → ℕ → Memory → Memory
title_from zero ident h = h
title_from (suc left) ident h = elim (has_text h (convert_ident_to_name ident)) [
  | true ↦ store h title_name_at (slice h (convert_ident_to_name ident) 0x80)
  | false ↦ title_from left (ident + 1) h
]

pub fix_title_name : Memory → Memory
fix_title_name h = if has_text h title_name_at then h else title_from 12 1 h

pub titles_from : ℕ → ℕ → Memory → Memory
titles_from zero ident h = h
titles_from (suc left) ident h = titles_from left (ident + 1) (
    if has_text h (convert_ident_to_name ident)
    then store h (convert_ident_to_desc ident) (slice h (convert_ident_to_name ident) 0x100)
    else h)

pub copy_titles_to_description : Memory → Memory
copy_titles_to_description h = titles_from 12 1 h
