-- ===== src/Ini/Version.antt =====
-- The version that an ini file starts with.
use mathlib.Core.Option
use mathlib.Core.Path.{subst}
use xe_build.Base.{
  ℕ, ◌≡◌, ◌∙◌, sym, refl, ap, ◌&&◌, ◌||◌, Option, none, some, List, [], ◌∷◌, arith, ◌==◌,
  if◌then◌else◌, ltb, leb, bit_and, Bool, Bool-cases, Option-cases, inl, inr, length, ◌+◌, true,
  false, ◌≢◌,
}
use xe_build.Bytes.{get_be32}
use xe_build.Ini.{
  InputFile, State, Checked, process_bytes, has_room, bl_type, bl_version, blank_of, check_bl_magic,
  add_bl, add_flash, add_other, after_backslash, classify, process, process_all,
}

-- The version of a bootloader that is a CF and as long as it says, and 0 for any other file.
pub cf_version : List ℕ → ℕ → ℕ
cf_version bytes len =
    let magic = get_be32 bytes 0 in
    if magic == 0x58455832 || magic == 0x78747466
    then 0
    else if bit_and magic 0x43400000 == 0x43400000 && leb (get_be32 bytes 0xc) len
    then if bl_type magic == 0x4346 then bl_version magic else 0
    else 0

-- Its maximum over a list of files, one that cannot be read left aside.
pub newer : ℕ → ℕ → ℕ
newer a b = if ltb a b then b else a

pub file_version : InputFile → ℕ
file_version f = elim f.content [ none ↦ 0 | some bytes ↦ cf_version bytes f.len ]

pub newest_cf : ℕ → List InputFile → ℕ
newest_cf v [] = v
newest_cf v (f ∷ fs) = newest_cf (newer v (file_version f)) fs

-- What a step makes of the version, where it ends.
abbrev Leaves : Option State → ℕ → Type 0
Leaves none v = Unit
Leaves (some s) v = s.flash_ver ≡ v

abbrev bl_cf_version : ℕ → List ℕ → ℕ → ℕ
bl_cf_version magic bytes len =
    if leb (get_be32 bytes 0xc) len
    then if bl_type magic == 0x4346 then bl_version magic else 0
    else 0

abbrev ChecksTo : Option Checked → ℕ → Type 0
ChecksTo none v = Unit
ChecksTo (some c) v = c.flash_ver ≡ v

short_lem :
    (magic : ℕ) (bytes : List ℕ) (len v : ℕ)
    → ltb len (get_be32 bytes 0xc) ≡ true
    → v ≡ newer v (bl_cf_version magic bytes len)
unfolding newer
short_lem magic bytes len v short = ground (arith, short)

other_lem :
    (magic : ℕ) (bytes : List ℕ) (len v : ℕ)
    → blank_of (bl_type magic) ≡ none
    → v ≡ newer v (bl_cf_version magic bytes len)
unfolding newer
other_lem magic bytes len v e = elim (Bool-cases (bl_type magic == 0x4346)) [
  | inr other ↦ ground (arith, other)
  | inl cf ↦ absurd (some-none cf e)
]
  where
    some-none : (bl_type magic == 0x4346) ≡ true → blank_of (bl_type magic) ≢ none
    some-none cf k =
        let typ : bl_type magic ≡ 0x4346 = ground (arith, cf) in
        let stuck : blank_of (bl_type magic) ≡ some (0x20, 0x210) =
          rw typ (unfold blank_of in refl) in
        cc (stuck, k)

check_bl_magic-flash_ver :
    (magic : ℕ) (bytes : List ℕ) (len v : ℕ)
    → ChecksTo (check_bl_magic magic bytes len v) (newer v (bl_cf_version magic bytes len))
unfolding check_bl_magic newer
check_bl_magic-flash_ver magic bytes len v = elim (Bool-cases (ltb len (get_be32 bytes 0xc))) [
  | inl short ↦ rw short (short_lem magic bytes len v short)
  | inr whole ↦ elim (Option-cases (blank_of (bl_type magic))) [
    | inl e ↦ rw (whole, e) (other_lem magic bytes len v e)
    | inr f ↦
        let (blank, e) = f in
        elim (Bool-cases (leb (blank.0 + blank.1) (length bytes))) [
          | inl within ↦ rw (whole, e, within) (ground (arith, whole))
          | inr past ↦ rw (whole, e, past) tt
        ]
  ]
]

add_bl-flash_ver :
    (s : State) (pname : List ℕ) (magic : ℕ) (bytes : List ℕ) (len v : ℕ)
    → newer s.flash_ver (bl_cf_version magic bytes len) ≡ v
    → Leaves (add_bl s pname magic bytes len) v
unfolding add_bl
add_bl-flash_ver s pname magic bytes len v e =
    elim (Option-cases (check_bl_magic magic bytes len s.flash_ver)) [
      | inl n ↦ rw n tt
      | inr f ↦
          let (c, m) = f in
          rw m (
            subst (λ o. ChecksTo o (newer s.flash_ver (bl_cf_version magic bytes len))) m
              (check_bl_magic-flash_ver magic bytes len s.flash_ver)
            ∙ e)
    ]

room-Leaves : (b : Bool) (o : Option State) (v : ℕ) → Leaves o v → Leaves (if b then o else none) v
room-Leaves true o v h = h
room-Leaves false o v h = tt

classify-flash_ver :
    (s : State) (pname : List ℕ) (bytes : List ℕ) (len : ℕ)
    → Leaves (classify s pname bytes len) (newer s.flash_ver (cf_version bytes len))
unfolding classify add_flash add_other cf_version newer
classify-flash_ver s pname bytes len =
    let magic = get_be32 bytes 0 in
    elim (Bool-cases (magic == 0x58455832 || magic == 0x78747466)) [
      | inl flash ↦ rw flash (room-Leaves (has_room s.flash_files pname) _ _ (ground arith))
      | inr more ↦ elim (Bool-cases (bit_and magic 0x43400000 == 0x43400000)) [
        | inl bl ↦
            rw (more, bl)
              (room-Leaves (has_room s.flash_bls pname) _ _
                (add_bl-flash_ver s pname magic bytes len _ (unfold newer in ground arith)))
        | inr other ↦
            rw (more, other) (room-Leaves (has_room s.other_files pname) _ _ (ground arith))
      ]
    ]

process_bytes-flash_ver :
    (s : State) (f : InputFile) (bytes : List ℕ)
    → Leaves (process_bytes s f bytes) (newer s.flash_ver (cf_version bytes f.len))
unfolding process_bytes
process_bytes-flash_ver s f bytes = elim (Option-cases (after_backslash f.path)) [
  | inl n ↦ rw (n, Leaves) tt
  | inr h ↦
      let (pname, p) = h in
      elim (Bool-cases (length bytes == 0)) [
        | inl empty ↦ rw (p, empty, Leaves) tt
        | inr more ↦
            let same : process_bytes s f bytes ≡ classify s pname bytes f.len =
              rw (p, more, process_bytes) refl in
            subst (λ o. Leaves o (newer s.flash_ver (cf_version bytes f.len))) (sym same)
              (classify-flash_ver s pname bytes f.len)
      ]
]

content-flash_ver :
    (s : State) (f : InputFile) (c : Option (List ℕ))
    → Leaves
        (elim c as (λ _. Option State) [ none ↦ some s | some bytes ↦ process_bytes s f bytes ])
        (newer s.flash_ver (elim c as (λ _. ℕ) [ none ↦ 0 | some bytes ↦ cf_version bytes f.len ]))
content-flash_ver s f none = unfold newer in ground arith
content-flash_ver s f (some bytes) = process_bytes-flash_ver s f bytes

process-flash_ver :
    (s : State) (f : InputFile) → Leaves (process s f) (newer s.flash_ver (file_version f))
unfolding process file_version
process-flash_ver s f = content-flash_ver s f f.content

-- If no behaviour of the run is undefined, the version that is printed is that of the newest CF
-- among the files that could be read: the highest version of those whose magic is a CF's and whose
-- length field is within the file. That holds from any version on.
pub process_all-newest_cf :
    (fs : List InputFile) (s s' : State)
    → process_all s fs ≡ some s'
    → s'.flash_ver ≡ newest_cf s.flash_ver fs
unfolding process_all newest_cf
process_all-newest_cf [] s s' e = rw (sym (Option.some-injective s s' e)) refl
process_all-newest_cf (f ∷ fs) s s' e = elim (Option-cases (process s f)) [
  | inl n ↦
      let stuck : process_all s (f ∷ fs) ≡ none = rw (n, process_all) refl in absurd (cc (stuck, e))
  | inr g ↦
      let (t, p) = g in
      let next : process_all s (f ∷ fs) ≡ process_all t fs = rw (p, process_all) refl in
      let here : t.flash_ver ≡ newer s.flash_ver (file_version f) =
        subst (λ o. Leaves o (newer s.flash_ver (file_version f))) p (process-flash_ver s f) in
      process_all-newest_cf fs t s' (sym next ∙ e) ∙ ap (λ v. newest_cf v fs) here
]
