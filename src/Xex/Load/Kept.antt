-- ===== src/Xex/Load/Kept.antt =====
-- `getXexInfoData` with the real `getSpaInfo`: what it leaves alone in the package header.
use mathlib.Core.Option
use mathlib.Core.Path.{subst}
use xe_build.Base.{
  ℕ, ◌+◌, ◌≡◌, refl, sym, ap, ◌∙◌, Bool, true, ◌&&◌, Option, none, some, List, [], length, arith,
  ltb, leb, ◌!=◌, Bool-cases, Option-cases, inl, inr, sub32, u32,
}
use xe_build.Bytes.{get_be32}
use xe_build.Svod.Disc.{Memory, slice, store}
use xe_build.Xex.Inflate.{Decoder, list_memory}
use xe_build.Xex.Info.{
  word_at, raw_word_at, file_data_descriptor, execution_id, get_xex_header_field, get_xex_exec_info,
  upper_hex, xex_get_spa_offset,
}
use xe_build.Header.{execution_id_at}
use xe_build.Header.Content.{is_counts, CountsIn, KeepsCounts}
use xe_build.Spa.Frame.{length-slice}
use xe_build.Spa.Strings.{Document, Parsed, Inflated}
use xe_build.Spa.Entries.{get_spa_info}
use xe_build.Spa.Entries.Confined.{get_spa_info-KeepsOther}
use xe_build.Xex.Load.{
  Image, load_image, image_spa, xex_get_spa_info, get_xex_info, get_xex_info_data,
}

abbrev Fields : Memory → Memory → Type 0
Fields h h' = (k : ℕ) → is_counts k ≡ true → h' k ≡ h k

CountsIn-trans : (h h' : Memory) (o : Option Parsed) → Fields h h' → CountsIn h' o → CountsIn h o
CountsIn-trans h h' none one two = tt
CountsIn-trans h h' (some r) one two = λ k is. two k is ∙ one k is

CountsIn-KeepsCounts :
    (f : Memory → ℕ → Memory → Option Parsed)
    → ((mem : Memory) (n : ℕ) (h : Memory) → CountsIn h (f mem n h))
    → KeepsCounts f
CountsIn-KeepsCounts f all mem n h r run = subst (CountsIn h) run (all mem n h)

KeepsCounts-CountsIn :
    (f : Memory → ℕ → Memory → Option Parsed) (mem : Memory) (n : ℕ) (h : Memory)
    → KeepsCounts f
    → CountsIn h (f mem n h)
KeepsCounts-CountsIn f mem n h keeps = elim (Option-cases (f mem n h)) [
  | inl e ↦ subst (CountsIn h) (sym e) tt
  | inr g ↦ let (r, e) = g in subst (CountsIn h) (sym e) (keeps mem n h r e)
]

exec_info_length :
    (mem : Memory) (len : ℕ) (id : List ℕ) → get_xex_exec_info mem len ≡ some id → length id ≡ 0x18
unfolding get_xex_exec_info
exec_info_length mem len id e =
    elim (Option-cases (get_xex_header_field mem execution_id (word_at mem 0x14))) [
      | inl f ↦
          let stuck : get_xex_exec_info mem len ≡ none = rw (f, get_xex_exec_info) refl in
          absurd (cc (stuck, e))
      | inr f ↦
          let (p, found) = f in
          let offset = word_at mem (p + 4) in
          elim (Bool-cases (ltb (sub32 len 0x18) offset)) [
            | inl far ↦
                let stuck : get_xex_exec_info mem len ≡ none =
                  rw (found, far, get_xex_exec_info) refl in
                absurd (cc (stuck, e))
            | inr near ↦
                let got : get_xex_exec_info mem len ≡ some (slice mem offset 0x18) =
                  rw (found, near, get_xex_exec_info) refl in
                ap length (sym (Option.some-injective (slice mem offset 0x18) id (sym got ∙ e)))
                ∙ length-slice mem offset 0x18
          ]
    ]

module _ (cbc : List ℕ → List ℕ → List ℕ → List ℕ) (xex1_key xex2_key : List ℕ) (alloc : ℕ → Bool)
    (lzxd : ℕ → ℕ → ℕ → Option Decoder) where
  module _ (spa_info : Memory → ℕ → Memory → Option Parsed) (keeps : KeepsCounts spa_info) where
    image_spa-CountsIn :
        (im : Image) (sec title : ℕ) (h : Memory)
        → CountsIn h (image_spa cbc xex1_key xex2_key alloc lzxd spa_info im sec title h)
    unfolding image_spa
    image_spa-CountsIn im sec title h =
        let s = xex_get_spa_offset im.file (list_memory (upper_hex 8 title [])) in
        let off = sub32 s.address (word_at im.file (sec + 0x110)) in
        elim (Bool-cases (im.good && s.address != 0)) [
          | inr absent ↦ rw absent (λ k is. refl)
          | inl found ↦ elim (Bool-cases (leb (u32 (off + s.size)) (word_at im.file (sec + 4)))) [
            | inr far ↦ rw (found, far) (λ k is. refl)
            | inl near ↦
                rw (found, near)
                  (KeepsCounts-CountsIn spa_info (λ k. im.out (off + k)) s.size h keeps)
          ]
        ]

    xex_get_spa_info-CountsIn :
        (fuel : ℕ) (mem : Memory) (sec len title : ℕ) (h : Memory)
        → CountsIn h
            (xex_get_spa_info cbc xex1_key xex2_key alloc lzxd spa_info fuel mem sec len title h)
    unfolding xex_get_spa_info
    xex_get_spa_info-CountsIn fuel mem sec len title h =
        elim (Option-cases (get_xex_header_field mem file_data_descriptor (raw_word_at mem 0x14))) [
          | inl e ↦ rw (e, xex_get_spa_info) (λ k is. refl)
          | inr f ↦
              let (p, e) = f in
              elim (Bool-cases (alloc (word_at mem (sec + 4)))) [
                | inr room ↦ rw (e, room, xex_get_spa_info) (λ k is. refl)
                | inl room ↦
                    elim (Option-cases (
                      load_image cbc xex1_key xex2_key alloc lzxd fuel mem sec (word_at mem (p + 4))
                        len)) [
                          | inl u ↦ rw (e, room, u, xex_get_spa_info) tt
                          | inr g ↦
                              let (im, u) = g in
                              rw (e, room, u, xex_get_spa_info) (image_spa-CountsIn im sec title h)
                        ]
              ]
        ]

    get_xex_info_data-CountsIn :
        (fuel : ℕ) (mem : Memory) (len : ℕ) (h : Memory)
        → CountsIn h (get_xex_info_data cbc xex1_key xex2_key alloc lzxd spa_info fuel mem len h)
    unfolding get_xex_info_data get_xex_info
    get_xex_info_data-CountsIn fuel mem len h =
        let sec = word_at mem 0x10 in
        elim (Bool-cases (word_at mem 0 != 0x58455832)) [
          | inl bad ↦ rw bad (λ k is. refl)
          | inr magic ↦ elim (Bool-cases (ltb (sub32 len 0x184) sec)) [
            | inl far ↦ rw (magic, far) (λ k is. refl)
            | inr near ↦ elim (Option-cases (get_xex_exec_info mem len)) [
              | inl e ↦ rw (magic, near, e) (λ k is. refl)
              | inr f ↦
                  let (id, e) = f in
                  let h' = store h execution_id_at id in
                  let stored : Fields h h' =
                    λ k is. ground (arith, is, exec_info_length mem len id e) in
                  let title = get_be32 id 0xc in
                  let kept = xex_get_spa_info-CountsIn fuel mem sec len title h' in
                  elim (Option-cases (
                    xex_get_spa_info cbc xex1_key xex2_key alloc lzxd spa_info fuel mem sec len
                      title h')) [
                        | inl u ↦ rw (magic, near, e, u) tt
                        | inr g ↦
                            let (r, u) = g in
                            let kept' : CountsIn h' (some r) = subst (CountsIn h') u kept in
                            rw (magic, near, e, u) (CountsIn-trans h h' (some r) stored kept')
                      ]
            ]
          ]
        ]

  module _ (to_wide : List ℕ → List ℕ) (inflate : Memory → ℕ → ℕ → Inflated)
      (read_xml : Memory → ℕ → Option Document) where
    get_spa_info-KeepsCounts : KeepsCounts (get_spa_info to_wide inflate read_xml alloc)
    get_spa_info-KeepsCounts spa n h r run k is =
        (get_spa_info-KeepsOther to_wide inflate read_xml alloc spa n h r run).at k
          (ground (arith, is))

    -- Whatever executable is on the disc, `getXexInfoData` with the `getSpaInfo` of spa.c leaves
    -- the fields of the package header alone that `main` and `openIsoFile` have stored before: its
    -- kind and size, the volume descriptor, the counts of files and bytes and the volume's type.
    -- Nothing is said of a run that gives no answer, because it writes behind a buffer (the image
    -- of raw records, a damaged chain of blocks, an encrypted file shorter than its headers, the
    -- query for a string) or a description stands in an unknown locale.
    pub get_xex_info_data-KeepsCounts :
        (fuel : ℕ)
        → KeepsCounts (
            get_xex_info_data cbc xex1_key xex2_key alloc lzxd
              (get_spa_info to_wide inflate read_xml alloc)
              fuel)
    get_xex_info_data-KeepsCounts fuel =
        let spa = get_spa_info to_wide inflate read_xml alloc in
        CountsIn-KeepsCounts (get_xex_info_data cbc xex1_key xex2_key alloc lzxd spa fuel)
          (get_xex_info_data-CountsIn spa get_spa_info-KeepsCounts fuel)
