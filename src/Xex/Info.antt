-- ===== src/Xex/Info.antt =====
-- tools/iso2svod/source/xexinfo.c with the structures of xexheader.h: the fields of an executable's
-- header, the image that it unpacks to, and the section with the title's resources. The file is a
-- memory; a byte behind its end is what stands there. `XeCryptAesCbc`, `getSpaInfo`, the keys and
-- allocation are parameters; the check of the signature only prints.
pub mod Fields
pub mod Raw
use xe_build.Base.{
  ℕ, zero, suc, ◌+◌, ◌-◌, ◌*◌, ◌/◌, Bool, true, false, ◌&&◌, ◌||◌, Option, none, some, List, [],
  ◌∷◌, ◌++◌, ltb, leb, ◌==◌, ◌!=◌, if◌then◌else◌, u32, sub32, bit_and, replicate, low_bits, ◌>>>◌,
}
use xe_build.Bytes.{byte_at, get_be16, get_be32, get_le32}
use xe_build.Svod.Disc.{Memory, slice}
use xe_build.Svod.Scan.{lower, blank}
use xe_build.Xex.Inflate.{is_negative, Decoder, unpack_xex_data}

-- A field of a structure in memory: `bswap32` of the word, and the word as the machine reads it.
abbrev pub word_at : Memory → ℕ → ℕ
word_at mem p = get_be32 (slice mem p 4) 0

abbrev pub half_at : Memory → ℕ → ℕ
half_at mem p = get_be16 (slice mem p 2) 0

abbrev pub raw_word_at : Memory → ℕ → ℕ
raw_word_at mem p = get_le32 (slice mem p 4) 0

-- `XEX_HEADER_SECTION_TABLE`, `XEX_FILE_DATA_DESCRIPTOR_HEADER` and `XEX_HEADER_EXECUTION_ID`.
abbrev pub section_table : ℕ
section_table = 0x2ff

abbrev pub file_data_descriptor : ℕ
file_data_descriptor = 0x3ff

abbrev pub execution_id : ℕ
execution_id = 0x40006

-- The loop of `getXexHeaderField`; a result is the place of the entry.
unfoldable pub find_field : ℕ → Memory → ℕ → ℕ → Option ℕ
find_field zero mem field cur_buf = none
find_field (suc left) mem field cur_buf = elim (word_at mem cur_buf == field) [
  | true ↦ some cur_buf
  | false ↦ find_field left mem field (cur_buf + 8)
]

unfoldable pub get_xex_header_field : Memory → ℕ → ℕ → Option ℕ
get_xex_header_field mem field num_entries =
    if is_negative num_entries then none else find_field num_entries mem field 0x18

-- The 24 bytes that `getXexExecInfo` copies.
unfoldable pub get_xex_exec_info : Memory → ℕ → Option (List ℕ)
get_xex_exec_info mem len = elim (get_xex_header_field mem execution_id (word_at mem 0x14)) [
  | none ↦ none
  | some p ↦
      let offset = word_at mem (p + 4) in
      if ltb (sub32 len 0x18) offset then none else some (slice mem offset 0x18)
]

-- The loop over the raw records at `desc`, from the source at `cur_buf` to the image at `pos`. The
-- image has `size` bytes; the code does not test it, and `none` is a write behind them.
pub expand_raw : ℕ → ℕ → Memory → ℕ → ℕ → Memory → ℕ → Option Memory
expand_raw size zero mem desc cur_buf out pos = some out
expand_raw size (suc left) mem desc cur_buf out pos =
    let rds = word_at mem desc in
    let zds = word_at mem (desc + 4) in
    elim (rds == 0 || leb (pos + rds) size) [
      | false ↦ none
      | true ↦
          expand_raw size left mem (desc + 8) (cur_buf + rds)
            (λ k. if leb pos k && ltb k (pos + rds) then mem (cur_buf + (k - pos)) else out k)
            (u32 (u32 (pos + rds) + zds))
    ]

-- `sprintf("%X")` of a word: no zeros in front, and at least one digit.
abbrev pub upper_digit : ℕ → ℕ
upper_digit d = if ltb d 10 then d + 0x30 else d + 0x37

pub upper_hex : ℕ → ℕ → List ℕ → List ℕ
upper_hex zero n text = text
upper_hex (suc left) n text =
    let text' = upper_digit (low_bits n 4) ∷ text in
    elim (n / 16 == 0) [ true ↦ text' | false ↦ upper_hex left (n / 16) text' ]

-- `strnicmp(..) == 0` on strings that end at a zero or after the given number of characters.
pub same_name : ℕ → Memory → Memory → Bool
same_name zero a b = true
same_name (suc n) a b =
    if lower (a 0) == lower (b 0)
    then if a 0 == 0 then true else same_name n (λ k. a (k + 1)) (λ k. b (k + 1))
    else false

-- The address and the size of a section.
pub record Section : Type 0 where
  pub address : ℕ
  pub size : ℕ

pub find_section : ℕ → Memory → Memory → ℕ → Option Section
find_section zero mem name p = none
find_section (suc left) mem name p = elim (same_name 8 name (λ k. mem (p + k))) [
  | true ↦ some (record { address = word_at mem (p + 8); size = word_at mem (p + 0xc) })
  | false ↦ find_section left mem name (p + 0x10)
]

-- The count of the fields is not swapped here, nor in `xexGetSpaInfo`.
pub xex_get_spa_offset : Memory → Memory → Section
xex_get_spa_offset mem name = elim (get_xex_header_field mem section_table (raw_word_at mem 0x14)) [
  | none ↦ record { address = 0; size = 0 }
  | some p ↦
      let table = word_at mem (p + 4) in
      elim (find_section (sub32 (word_at mem table) 4 / 0x10) mem name (table + 4)) [
        | none ↦ record { address = 0; size = 0 }
        | some s ↦ s
      ]
]
