-- ===== src/Spa/Strings.antt =====
-- `parseStringsXrXml` and `parseStringsXrsc` of spa.c. libxml, `MultiByteToWideChar` and zlib are
-- parameters. A document is what the queries on it answer: a query without a node is `none` or an
-- empty list, and so is an attribute that is missing. Each translation has a locale and a text.
pub mod Frame
pub mod Status
use xe_build.Base.{
  ℕ, zero, suc, ◌+◌, ◌*◌, Bool, true, false, ◌&&◌, Option, none, some, List, [], ◌∷◌, length, leb,
  ◌==◌, ◌!=◌, if◌then◌else◌, u32,
}
use xe_build.Svod.Disc.{Memory, slice, store}
use xe_build.Xex.Info.{word_at}
use xe_build.Header.{title_name_at}
use xe_build.Spa.{
  swapped_chars, convert_locale_to_name, convert_locale_to_desc, convert_ident_to_desc,
  endian_copy_wchar_buf, fix_title_name, copy_titles_to_description,
}

-- A node `Translation`; the attributes of `ProductInformation`; and the document, with the
-- `titleName` of `GameConfigProject` and the translations of the string with an id.
pub record Translation : Type 0 where
  pub locale : List ℕ
  pub text : List ℕ

pub record Product : Type 0 where
  pub sell_text_string_id : Option (List ℕ)
  pub publisher_string_id : Option (List ℕ)
  pub developer_string_id : Option (List ℕ)

pub record Document : Type 0 where
  pub namespace_ok : Bool
  pub title_name : Option (Option (List ℕ))
  pub product : Option Product
  pub translations : List ℕ → List Translation

-- The result of a parser, and the header that it leaves.
pub record Parsed : Type 0 where
  pub ret : Bool
  pub header : Memory

-- The id `32768`.
abbrev pub game_name_id : List ℕ
game_name_id = 0x33 ∷ 0x32 ∷ 0x37 ∷ 0x36 ∷ 0x38 ∷ []

-- `L"No Description Provided\0"`, with the zero at its end.
abbrev pub phony_desc : List ℕ
phony_desc =
    0x4e ∷ 0x6f ∷ 0x20 ∷ 0x44 ∷ 0x65 ∷ 0x73 ∷ 0x63 ∷ 0x72 ∷ 0x69 ∷ 0x70 ∷ 0x74 ∷ 0x69 ∷ 0x6f ∷ 0x6e
    ∷ 0x20 ∷ 0x50 ∷ 0x72 ∷ 0x6f ∷ 0x76 ∷ 0x69 ∷ 0x64 ∷ 0x65 ∷ 0x64 ∷ 0 ∷ 0 ∷ []

-- The string that describes the game: the one to sell it with, else the publisher's, else the
-- developer's.
unfoldable pub description_id : Option Product → Option (List ℕ)
description_id none = none
description_id (some p) = elim p.sell_text_string_id [
  | some id ↦ some id
  | none ↦ elim p.publisher_string_id [ some id ↦ some id | none ↦ p.developer_string_id ]
]

-- The loop that stores the text where no description is found, from `cnter` on.
pub phony_from : ℕ → ℕ → Memory → Memory
phony_from zero cnter h = h
phony_from (suc left) cnter h =
    phony_from left (cnter + 1)
      (store h (convert_ident_to_desc cnter) (swapped_chars 25 phony_desc))

-- The query for a string has an id of `n` bytes between 93 and 14 bytes, and a zero at its end: it
-- is formatted into 256 bytes with no test.
unfoldable pub fits_query : ℕ → Bool
fits_query n = leb (93 + n + 14 + 1) 256

-- What zlib's `inflate` answers: its status, where 1 is `Z_STREAM_END`, and the output.
pub record Inflated : Type 0 where
  pub status : ℕ
  pub out : Memory

module _ (to_wide : List ℕ → List ℕ) where
  -- A text that is converted goes to a place for `n` characters.
  pub store_text : List ℕ → ℕ → ℕ → Memory → Memory
  store_text text p n h =
      let wide = to_wide text in
      if length wide != 0 then endian_copy_wchar_buf wide (length wide) p n h else h

  pub store_title : Document → Memory → Memory
  store_title doc h = elim doc.title_name [
    | none ↦ h
    | some none ↦ h
    | some (some title) ↦ store_text title title_name_at 0x40 h
  ]

  -- The loop over the game's names.
  pub store_names : List Translation → Memory → Parsed
  store_names [] h = record { ret = true; header = h }
  store_names (t ∷ ts) h = elim (convert_locale_to_name t.locale) [
    | none ↦ record { ret = false; header = h }
    | some p ↦ store_names ts (store_text t.text p 0x40 h)
  ]

  -- The loop over the descriptions. A locale that is not known ends in undefined behaviour, `none`:
  -- the code frees what it holds and goes on with it.
  pub store_descs : List Translation → Memory → Option Memory
  store_descs [] h = some h
  store_descs (t ∷ ts) h = elim (convert_locale_to_desc t.locale) [
    | none ↦ none
    | some p ↦ store_descs ts (store_text t.text p 0x80 h)
  ]

  pub describe : List Translation → Memory → Option Memory
  describe [] h = some (phony_from 12 1 h)
  describe (t ∷ ts) h = store_descs (t ∷ ts) h

  -- A query that is too long is undefined behaviour, `none`.
  pub store_description : Document → Memory → Option Memory
  store_description doc h = elim (description_id doc.product) [
    | some id ↦ if fits_query (length id) then describe (doc.translations id) h else none
    | none ↦ some (copy_titles_to_description h)
  ]

  -- What follows the names, and all texts but the title.
  pub finish_texts : Document → Memory → Option Parsed
  finish_texts doc h = elim (store_description doc h) [
    | none ↦ none
    | some h' ↦ some (record { ret = true; header = fix_title_name h' })
  ]

  pub store_texts : Document → List Translation → Memory → Option Parsed
  store_texts doc [] h = some (record { ret = false; header = h })
  store_texts doc (t ∷ ts) h =
      let names = store_names (t ∷ ts) h in
      elim names.ret [ false ↦ some names | true ↦ finish_texts doc names.header ]

  pub parse_strings_xr_xml : Option Document → Memory → Option Parsed
  parse_strings_xr_xml none h = some (record { ret = false; header = h })
  parse_strings_xr_xml (some doc) h =
      if doc.namespace_ok
      then store_texts doc (doc.translations game_name_id) (store_title doc h)
      else some (record { ret = false; header = h })

  module _ (inflate : Memory → ℕ → ℕ → Inflated) (read_xml : Memory → ℕ → Option Document)
      (alloc : ℕ → Bool) where
    -- `unpackGzipStreamData`.
    unfoldable pub unpack_gzip_stream_data : Memory → ℕ → ℕ → Option Memory
    unpack_gzip_stream_data in_data in_len out_len =
        let r = inflate in_data in_len out_len in if r.status == 1 then some r.out else none

    pub parse_strings_xrsc : Memory → Memory → Option Parsed
    parse_strings_xrsc xrsc h =
        let bod = u32 (0x10 + word_at xrsc 0xc) in
        let failed : Parsed = record { ret = false; header = h } in
        if word_at xrsc 0 == 0x58535243 && alloc (word_at xrsc bod)
        then elim (unpack_gzip_stream_data (λ k. xrsc (bod + 8 + k)) (word_at xrsc (bod + 4))
            (word_at xrsc bod)) [
              | none ↦ some failed
              | some xml ↦ parse_strings_xr_xml (read_xml xml (word_at xrsc bod)) h
            ]
        else some failed
