-- ===== src/Spa/Strings/Status.antt =====
-- What the parsers of the strings answer, from the document alone.
use mathlib.Core.Option
use xe_build.Base.{
  ℕ, ◌+◌, ◌≡◌, refl, sym, ap, ◌∙◌, Bool, true, false, ◌&&◌, Option, none, some, List, [], ◌∷◌,
  length, ◌==◌, if◌then◌else◌, Bool-cases, Option-cases, inl, inr, is_some, u32,
}
use xe_build.Svod.Disc.{Memory}
use xe_build.Svod.Scan.{same_text}
use xe_build.Xex.Info.{word_at}
use xe_build.Spa.{locales, find_locale, convert_locale_to_name, convert_locale_to_desc}
use xe_build.Spa.Strings.{
  Translation, Document, Inflated, game_name_id, description_id, fits_query, store_text,
  store_title, store_names, store_descs, describe, store_description, finish_texts, store_texts,
  parse_strings_xr_xml, unpack_gzip_stream_data, parse_strings_xrsc,
}

-- The locales that have a row in the header.
unfoldable pub is_locale : List (List ℕ) → List ℕ → Bool
is_locale [] loc = false
is_locale (l ∷ ls) loc = elim (same_text l loc) [ true ↦ true | false ↦ is_locale ls loc ]

unfoldable pub locales_known : List Translation → Bool
locales_known [] = true
locales_known (t ∷ ts) = elim (is_locale locales t.locale) [
  | true ↦ locales_known ts
  | false ↦ false
]

-- The answer for a document that could be read; `none` is undefined behaviour.
abbrev pub describe_status : Document → Option Bool
describe_status doc = elim (description_id doc.product) [
  | none ↦ some true
  | some id ↦
      if fits_query (length id) && locales_known (doc.translations id) then some true else none
]

abbrev pub names_status : Document → List Translation → Option Bool
names_status doc [] = some false
names_status doc (t ∷ ts) = if locales_known (t ∷ ts) then describe_status doc else some false

abbrev pub document_status : Option Document → Option Bool
document_status none = some false
document_status (some doc) =
    if doc.namespace_ok then names_status doc (doc.translations game_name_id) else some false

-- A row is found for the locales in the table.
find_locale_lem :
    (ls : List (List ℕ)) (i : ℕ) (loc : List ℕ) → is_some (find_locale ls i loc) ≡ is_locale ls loc
unfolding find_locale is_locale
find_locale_lem [] i loc = refl
find_locale_lem (l ∷ ls) i loc = elim (Bool-cases (same_text l loc)) [
  | inl e ↦ rw (e, find_locale, is_locale) refl
  | inr e ↦ rw (e, find_locale, is_locale) (find_locale_lem ls (i + 1) loc)
]

is_some-map : (row : ℕ → ℕ) (o : Option ℕ) → is_some (Option.map row o) ≡ is_some o
is_some-map row none = refl
is_some-map row (some i) = refl

name_known : (loc : List ℕ) → is_some (convert_locale_to_name loc) ≡ is_locale locales loc
unfolding convert_locale_to_name
name_known loc = is_some-map _ (find_locale locales 0 loc) ∙ find_locale_lem locales 0 loc

desc_known : (loc : List ℕ) → is_some (convert_locale_to_desc loc) ≡ is_locale locales loc
unfolding convert_locale_to_desc
desc_known loc = is_some-map _ (find_locale locales 0 loc) ∙ find_locale_lem locales 0 loc

module _ (to_wide : List ℕ → List ℕ) where
  store_names_ret :
      (ts : List Translation) (h : Memory) → (store_names to_wide ts h).ret ≡ locales_known ts
  unfolding store_names locales_known
  store_names_ret [] h = refl
  store_names_ret (t ∷ ts) h = elim (Option-cases (convert_locale_to_name t.locale)) [
    | inl e ↦
        let k : is_locale locales t.locale ≡ false = sym (name_known t.locale) ∙ ap is_some e in
        rw (e, k, store_names, locales_known) refl
    | inr f ↦
        let (p, e) = f in
        let k : is_locale locales t.locale ≡ true = sym (name_known t.locale) ∙ ap is_some e in
        rw (e, k, store_names, locales_known)
          (store_names_ret ts (store_text to_wide t.text p 0x40 h))
  ]

  is_some-store_descs :
      (ts : List Translation) (h : Memory) → is_some (store_descs to_wide ts h) ≡ locales_known ts
  unfolding store_descs locales_known
  is_some-store_descs [] h = refl
  is_some-store_descs (t ∷ ts) h = elim (Option-cases (convert_locale_to_desc t.locale)) [
    | inl e ↦
        let k : is_locale locales t.locale ≡ false = sym (desc_known t.locale) ∙ ap is_some e in
        rw (e, k, store_descs, locales_known) refl
    | inr f ↦
        let (p, e) = f in
        let k : is_locale locales t.locale ≡ true = sym (desc_known t.locale) ∙ ap is_some e in
        rw (e, k, store_descs, locales_known)
          (is_some-store_descs ts (store_text to_wide t.text p 0x80 h))
  ]

  is_some-describe :
      (ts : List Translation) (h : Memory) → is_some (describe to_wide ts h) ≡ locales_known ts
  unfolding describe locales_known
  is_some-describe [] h = refl
  is_some-describe (t ∷ ts) h = is_some-store_descs (t ∷ ts) h

  finish_texts_status :
      (doc : Document) (h : Memory)
      → Option.map (λ r. r.ret) (finish_texts to_wide doc h) ≡ describe_status doc
  unfolding finish_texts store_description
  finish_texts_status doc h = elim (Option-cases (description_id doc.product)) [
    | inl e ↦ rw (e, finish_texts, store_description, describe_status) refl
    | inr f ↦
        let (id, e) = f in
        let known = is_some-describe (doc.translations id) h in
        elim (Bool-cases (fits_query (length id))) [
          | inr long ↦ rw (e, long, finish_texts, store_description, describe_status) refl
          | inl fits ↦ elim (Option-cases (describe to_wide (doc.translations id) h)) [
            | inl d ↦
                let k : locales_known (doc.translations id) ≡ false = sym known ∙ ap is_some d in
                rw (e, fits, d, k, finish_texts, store_description, describe_status) refl
            | inr g ↦
                let (h', d) = g in
                let k : locales_known (doc.translations id) ≡ true = sym known ∙ ap is_some d in
                rw (e, fits, d, k, finish_texts, store_description, describe_status) refl
          ]
        ]
  ]

  store_texts_status :
      (doc : Document) (ts : List Translation) (h : Memory)
      → Option.map (λ r. r.ret) (store_texts to_wide doc ts h) ≡ names_status doc ts
  unfolding store_texts
  store_texts_status doc [] h = refl
  store_texts_status doc (t ∷ ts) h =
      let names = store_names to_wide (t ∷ ts) h in
      let known = store_names_ret (t ∷ ts) h in
      elim (Bool-cases (locales_known (t ∷ ts))) [
        | inl k ↦
            let e : names.ret ≡ true = known ∙ k in
            rw (e, k, store_texts) (finish_texts_status doc names.header)
        | inr k ↦ let e : names.ret ≡ false = known ∙ k in rw (e, k, store_texts) (ap some e)
      ]

  pub parse_strings_xr_xml_status :
      (doc : Option Document) (h : Memory)
      → Option.map (λ r. r.ret) (parse_strings_xr_xml to_wide doc h) ≡ document_status doc
  unfolding parse_strings_xr_xml
  parse_strings_xr_xml_status none h = refl
  parse_strings_xr_xml_status (some doc) h = elim (Bool-cases doc.namespace_ok) [
    | inr e ↦ simp e refl
    | inl e ↦
        simp e (store_texts_status doc (doc.translations game_name_id) (store_title to_wide doc h))
  ]

  module _ (inflate : Memory → ℕ → ℕ → Inflated) (read_xml : Memory → ℕ → Option Document)
      (alloc : ℕ → Bool) where
    -- The same for `parseStringsXrsc`.
    unfoldable pub xrsc_status : Memory → Option Bool
    xrsc_status xrsc =
        let bod = u32 (0x10 + word_at xrsc 0xc) in
        if word_at xrsc 0 == 0x58535243 && alloc (word_at xrsc bod)
        then elim (unpack_gzip_stream_data to_wide inflate read_xml alloc (λ k. xrsc (bod + 8 + k))
            (word_at xrsc (bod + 4)) (word_at xrsc bod)) [
              | none ↦ some false
              | some xml ↦ document_status (read_xml xml (word_at xrsc bod))
            ]
        else some false

    pub parse_strings_xrsc_status :
        (xrsc h : Memory)
        → Option.map (λ r. r.ret) (parse_strings_xrsc to_wide inflate read_xml alloc xrsc h)
          ≡ xrsc_status xrsc
    unfolding parse_strings_xrsc xrsc_status
    parse_strings_xrsc_status xrsc h =
        let bod = u32 (0x10 + word_at xrsc 0xc) in
        elim (Bool-cases (word_at xrsc 0 == 0x58535243 && alloc (word_at xrsc bod))) [
          | inr e ↦ rw e refl
          | inl e ↦
              elim (Option-cases (
                unpack_gzip_stream_data to_wide inflate read_xml alloc (λ k. xrsc (bod + 8 + k))
                  (word_at xrsc (bod + 4)) (word_at xrsc bod))) [
                    | inl n ↦ rw (e, n) refl
                    | inr f ↦
                        let (xml, u) = f in
                        rw (e, u) (parse_strings_xr_xml_status (read_xml xml (word_at xrsc bod)) h)
                  ]
        ]
