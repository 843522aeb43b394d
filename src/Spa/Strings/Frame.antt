-- ===== src/Spa/Strings/Frame.antt =====
-- Where `parseStringsXrXml` and `parseStringsXrsc` write.
use mathlib.Core.Option
use mathlib.Core.Path.{subst}
use xe_build.Base.{
  ℕ, zero, suc, ◌+◌, ◌*◌, ◌≤◌, ◌≡◌, refl, sym, ◌∙◌, Bool, ◌&&◌, Option, none, some, List, [], ◌∷◌,
  length, arith, ◌==◌, ◌!=◌, Bool-cases, Option-cases, inl, inr, u32,
}
use xe_build.Svod.Disc.{Memory, store}
use xe_build.Xex.Info.{word_at}
use xe_build.Header.{title_name_at}
use xe_build.Spa.{
  convert_locale_to_name, convert_locale_to_desc, convert_ident_to_desc, swapped_chars,
  fix_title_name, copy_titles_to_description,
}
use xe_build.Spa.Frame.{
  KeepsRest, KeepsRest-refl, KeepsRest-trans, store-KeepsRest, IsPlace, IsPlace-part, title-IsPlace,
  ident-IsPlace, name-IsPlace, desc-IsPlace, length-swapped_chars, endian_copy-KeepsRest,
  fix_title_name-KeepsRest, copy_titles-KeepsRest,
}
use xe_build.Spa.Strings.{
  Translation, Document, Parsed, Inflated, game_name_id, phony_desc, description_id, fits_query,
  phony_from, store_text, store_title, store_names, store_descs, describe, store_description,
  finish_texts, store_texts, parse_strings_xr_xml, unpack_gzip_stream_data, parse_strings_xrsc,
}

-- The loop over the languages.
phony_from-KeepsRest :
    (left cnter : ℕ) (h : Memory)
    → 1 ≤ cnter
    → cnter + left ≤ 13
    → KeepsRest h (phony_from left cnter h)
unfolding phony_from
phony_from-KeepsRest zero cnter h low high = KeepsRest-refl h
phony_from-KeepsRest (suc left) cnter h low high =
    let text = swapped_chars 25 phony_desc in
    let h' = store h (convert_ident_to_desc cnter) text in
    KeepsRest-trans h h' (phony_from left (cnter + 1) h')
      (store-KeepsRest h (convert_ident_to_desc cnter) 0x100 text
        (ident-IsPlace cnter low (omega (arith, high)))
        (omega (arith, length-swapped_chars 25 phony_desc)))
      (phony_from-KeepsRest left (cnter + 1) h' (omega arith) (omega (arith, high)))

module _ (to_wide : List ℕ → List ℕ) where
  store_text-KeepsRest :
      (text : List ℕ) (p n : ℕ) (h : Memory)
      → IsPlace p (n * 2)
      → KeepsRest h (store_text to_wide text p n h)
  unfolding store_text
  store_text-KeepsRest text p n h place =
      let wide = to_wide text in
      elim (Bool-cases (length wide != 0)) [
        | inl e ↦ rw e (endian_copy-KeepsRest wide (length wide) p n h place)
        | inr e ↦ rw e (KeepsRest-refl h)
      ]

  store_title-KeepsRest : (doc : Document) (h : Memory) → KeepsRest h (store_title to_wide doc h)
  unfolding store_title
  store_title-KeepsRest doc h =
      elim (doc.title_name)
        as (λ o. KeepsRest h (elim o as (λ _. Memory) [
          | none ↦ h
          | some none ↦ h
          | some (some title) ↦ store_text to_wide title title_name_at 0x40 h
        ])) [
          | none ↦ KeepsRest-refl h
          | some none ↦ KeepsRest-refl h
          | some (some title) ↦ store_text-KeepsRest title title_name_at 0x40 h title-IsPlace
        ]

  store_names-KeepsRest :
      (ts : List Translation) (h : Memory) → KeepsRest h (store_names to_wide ts h).header
  unfolding store_names
  store_names-KeepsRest [] h = KeepsRest-refl h
  store_names-KeepsRest (t ∷ ts) h = elim (Option-cases (convert_locale_to_name t.locale)) [
    | inl e ↦ rw (e, store_names) (KeepsRest-refl h)
    | inr f ↦
        let (p, e) = f in
        let h' = store_text to_wide t.text p 0x40 h in
        rw (e, store_names)
          (KeepsRest-trans h h' (store_names to_wide ts h').header
            (store_text-KeepsRest t.text p 0x40 h
              (IsPlace-part p 0x100 0x80 (omega arith) (name-IsPlace t.locale p e)))
            (store_names-KeepsRest ts h'))
  ]

  store_descs-KeepsRest :
      (ts : List Translation) (h r : Memory) → store_descs to_wide ts h ≡ some r → KeepsRest h r
  unfolding store_descs
  store_descs-KeepsRest [] h r run =
      subst (KeepsRest h) (Option.some-injective h r run) (KeepsRest-refl h)
  store_descs-KeepsRest (t ∷ ts) h r run = elim (Option-cases (convert_locale_to_desc t.locale)) [
    | inl e ↦
        let stuck : store_descs to_wide (t ∷ ts) h ≡ none = rw (e, store_descs) refl in
        absurd (cc (stuck, run))
    | inr f ↦
        let (p, e) = f in
        let h' = store_text to_wide t.text p 0x80 h in
        let next : store_descs to_wide (t ∷ ts) h ≡ store_descs to_wide ts h' =
          rw (e, store_descs) refl in
        KeepsRest-trans h h' r (store_text-KeepsRest t.text p 0x80 h (desc-IsPlace t.locale p e))
          (store_descs-KeepsRest ts h' r (sym next ∙ run))
  ]

  describe-KeepsRest :
      (ts : List Translation) (h r : Memory) → describe to_wide ts h ≡ some r → KeepsRest h r
  unfolding describe
  describe-KeepsRest [] h r run =
      subst (KeepsRest h) (Option.some-injective (phony_from 12 1 h) r run)
        (phony_from-KeepsRest 12 1 h (omega arith) (omega arith))
  describe-KeepsRest (t ∷ ts) h r run = store_descs-KeepsRest (t ∷ ts) h r run

  store_description-KeepsRest :
      (doc : Document) (h r : Memory) → store_description to_wide doc h ≡ some r → KeepsRest h r
  unfolding store_description
  store_description-KeepsRest doc h r run = elim (Option-cases (description_id doc.product)) [
    | inl e ↦
        let done : store_description to_wide doc h ≡ some (copy_titles_to_description h) =
          rw (e, store_description) refl in
        subst (KeepsRest h)
          (Option.some-injective (copy_titles_to_description h) r (sym done ∙ run))
          (copy_titles-KeepsRest h)
    | inr f ↦
        let (id, e) = f in
        elim (Bool-cases (fits_query (length id))) [
          | inr long ↦
              let stuck : store_description to_wide doc h ≡ none =
                rw (e, long, store_description) refl in
              absurd (cc (stuck, run))
          | inl fits ↦
              let next : store_description to_wide doc h
                  ≡ describe to_wide (doc.translations id) h =
                rw (e, fits, store_description) refl in
              describe-KeepsRest (doc.translations id) h r (sym next ∙ run)
        ]
  ]

-- Whatever a parser leaves, where it ends.
abbrev pub KeepsIn : Memory → Option Parsed → Type 0
KeepsIn h none = Unit
KeepsIn h (some r) = KeepsRest h r.header

pub KeepsIn-trans :
    (h h' : Memory) (o : Option Parsed) → KeepsRest h h' → KeepsIn h' o → KeepsIn h o
KeepsIn-trans h h' none one two = tt
KeepsIn-trans h h' (some r) one two = KeepsRest-trans h h' r.header one two

module _ (to_wide : List ℕ → List ℕ) where
  finish_texts-KeepsIn : (doc : Document) (h : Memory) → KeepsIn h (finish_texts to_wide doc h)
  unfolding finish_texts
  finish_texts-KeepsIn doc h = elim (Option-cases (store_description to_wide doc h)) [
    | inl e ↦ rw (e, finish_texts) tt
    | inr f ↦
        let (h', e) = f in
        rw (e, finish_texts)
          (KeepsRest-trans h h' (fix_title_name h') (store_description-KeepsRest to_wide doc h h' e)
            (fix_title_name-KeepsRest h'))
  ]

  store_texts-KeepsIn :
      (doc : Document) (ts : List Translation) (h : Memory)
      → KeepsIn h (store_texts to_wide doc ts h)
  unfolding store_texts
  store_texts-KeepsIn doc [] h = KeepsRest-refl h
  store_texts-KeepsIn doc (t ∷ ts) h =
      let names = store_names to_wide (t ∷ ts) h in
      let kept = store_names-KeepsRest to_wide (t ∷ ts) h in
      elim (Bool-cases names.ret) [
        | inr e ↦ rw (e, store_texts) kept
        | inl e ↦
            rw (e, store_texts)
              (KeepsIn-trans h names.header (finish_texts to_wide doc names.header) kept
                (finish_texts-KeepsIn doc names.header))
      ]

  pub parse_strings_xr_xml-KeepsIn :
      (doc : Option Document) (h : Memory) → KeepsIn h (parse_strings_xr_xml to_wide doc h)
  unfolding parse_strings_xr_xml
  parse_strings_xr_xml-KeepsIn none h = KeepsRest-refl h
  parse_strings_xr_xml-KeepsIn (some doc) h =
      let h' = store_title to_wide doc h in
      elim (Bool-cases doc.namespace_ok) [
        | inr e ↦ simp e (KeepsRest-refl h)
        | inl e ↦ simp e (
            KeepsIn-trans h h' (store_texts to_wide doc (doc.translations game_name_id) h')
              (store_title-KeepsRest to_wide doc h)
              (store_texts-KeepsIn doc (doc.translations game_name_id) h'))
      ]

  module _ (inflate : Memory → ℕ → ℕ → Inflated) (read_xml : Memory → ℕ → Option Document)
      (alloc : ℕ → Bool) where
    pub parse_strings_xrsc-KeepsIn :
        (xrsc h : Memory) → KeepsIn h (parse_strings_xrsc to_wide inflate read_xml alloc xrsc h)
    unfolding parse_strings_xrsc
    parse_strings_xrsc-KeepsIn xrsc h =
        let bod = u32 (0x10 + word_at xrsc 0xc) in
        elim (Bool-cases (word_at xrsc 0 == 0x58535243 && alloc (word_at xrsc bod))) [
          | inr e ↦ rw e (KeepsRest-refl h)
          | inl e ↦
              elim (Option-cases (
                unpack_gzip_stream_data to_wide inflate read_xml alloc (λ k. xrsc (bod + 8 + k))
                  (word_at xrsc (bod + 4)) (word_at xrsc bod))) [
                    | inl n ↦ rw (e, n) (KeepsRest-refl h)
                    | inr f ↦
                        let (xml, u) = f in
                        rw (e, u) (parse_strings_xr_xml-KeepsIn (read_xml xml (word_at xrsc bod)) h)
                  ]
        ]
