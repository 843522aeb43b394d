-- ===== src/Ini.antt =====
-- tools/ini_creator/ini_creator/main.c: the files of an update are sorted into the sections of an
-- ini file. The three arrays are lists in the order of their filling. `none` stands for undefined
-- behaviour: the jump into nowhere of `processFile` on a name with no backslash, a bootloader that
-- ends before the bytes that are blanked out, a file without bytes, a name of more than 64
-- characters, and more than `MAX_FLASH` files of a kind. The output is a list of titles and items.
pub mod Sections
pub mod Version
use mathlib.Core.Option
use xe_build.Base.{
  ℕ, zero, suc, ◌+◌, ◌*◌, ◌/◌, ◌%◌, ◌^◌, bit_and, Bool, true, false, ◌&&◌, ◌||◌, Option, none, some,
  List, [], ◌∷◌, ◌++◌, length, set, take, ltb, leb, low_bits, ◌>>>◌, ◌==◌, ◌!=◌, if◌then◌else◌,
}
use xe_build.Bytes.{get_be32}
use xe_build.Crc.{crc32buf}

-- `FLLIST`.
pub record Entry : Type 0 where
  pub name : List ℕ
  pub crc : ℕ
  pub magic : ℕ

-- `RFILEINF` with the name on the command line. `content` is the buffer of `readFile`, whose length
-- is the file's in whole 16 bytes; it is `none` if the file cannot be read.
pub record InputFile : Type 0 where
  pub path : List ℕ
  pub content : Option (List ℕ)
  pub len : ℕ

pub record State : Type 0 where
  pub flash_files : List Entry
  pub other_files : List Entry
  pub flash_bls : List Entry
  pub flash_ver : ℕ

-- `memset(&data[off], 0, len)`.
pub zero_fill : List ℕ → ℕ → ℕ → List ℕ
zero_fill bytes off zero = bytes
zero_fill bytes off (suc len) = zero_fill (set bytes off 0) (off + 1) len

-- `(magic >> 16) & BL_FULLMASK` and the version below it.
abbrev pub bl_type : ℕ → ℕ
bl_type magic = bit_and (low_bits (magic >>> 16) 16) 0x4347

abbrev pub bl_version : ℕ → ℕ
bl_version magic = low_bits magic 16

-- What `checkBlMagic` blanks out in a bootloader of each type: an offset and a length. `none` is
-- the type that it does not know.
unfoldable pub blank_of : ℕ → Option (ℕ × ℕ)
blank_of typ =
    if typ == 0x4342
    then some (0x10, 0x30)
    else if typ == 0x4343 || typ == 0x4344 || typ == 0x4345 || typ == 0x4347
    then some (0x10, 0x10)
    else if typ == 0x4346
    then some (0x20, 0x210)
    else none

-- `checkBlMagic` on the next free entry: its crc and magic, 0 where the file is refused, and the
-- highest version of a CF so far. The code does not test that the bytes that it blanks out are
-- within the buffer; `none` is a write behind its end.
pub record Checked : Type 0 where
  pub crc : ℕ
  pub magic : ℕ
  pub flash_ver : ℕ

unfoldable pub check_bl_magic : ℕ → List ℕ → ℕ → ℕ → Option Checked
check_bl_magic magic bytes len flash_ver =
    let refused : Checked = record { crc = 0; magic = 0; flash_ver = flash_ver } in
    if ltb len (get_be32 bytes 0xc) then some refused else elim (blank_of (bl_type magic)) [
      | none ↦ some refused
      | some blank ↦
          if leb (blank.0 + blank.1) (length bytes)
          then some (record {
            crc = crc32buf (take (get_be32 bytes 0xc) (zero_fill bytes blank.0 blank.1));
            magic = magic;
            flash_ver =
                if bl_type magic == 0x4346 && ltb flash_ver (bl_version magic)
                then bl_version magic
                else flash_ver;
          })
          else none
    ]

-- What stands behind the last backslash, if there is one.
unfoldable pub after_backslash : List ℕ → Option (List ℕ)
after_backslash [] = none
after_backslash (c ∷ cs) = elim (after_backslash cs) [
  | some rest ↦ some rest
  | none ↦ if c == 0x5c then some cs else none
]

-- `processFile` once the name is cut, for the three types.
pub add_flash : State → List ℕ → List ℕ → State
add_flash s pname bytes = record s {
  flash_files = s.flash_files ++ (record { name = pname; crc = crc32buf bytes; magic = 0 } ∷ []);
}

pub add_other : State → List ℕ → List ℕ → State
add_other s pname bytes = record s {
  other_files = s.other_files ++ (record { name = pname; crc = crc32buf bytes; magic = 0 } ∷ []);
}

unfoldable pub add_bl : State → List ℕ → ℕ → List ℕ → ℕ → Option State
add_bl s pname magic bytes len =
    Option.map
      (λ c. record s {
        flash_bls = s.flash_bls ++ (record { name = pname; crc = c.crc; magic = c.magic } ∷ []);
        flash_ver = c.flash_ver;
      })
      (check_bl_magic magic bytes len s.flash_ver)

-- An array has a free entry, whose name has 64 characters: neither is tested.
unfoldable pub has_room : List Entry → List ℕ → Bool
has_room es pname = ltb (length es) 0x100 && leb (length pname) 64

-- The kind of a file, and its entry.
unfoldable pub classify : State → List ℕ → List ℕ → ℕ → Option State
classify s pname bytes len =
    let magic = get_be32 bytes 0 in
    if magic == 0x58455832 || magic == 0x78747466
    then if has_room s.flash_files pname then some (add_flash s pname (take len bytes)) else none
    else if bit_and magic 0x43400000 == 0x43400000
    then if has_room s.flash_bls pname then add_bl s pname magic bytes len else none
    else if has_room s.other_files pname
    then some (add_other s pname (take len bytes))
    else none

-- The body of the loop of `main` for a file that was read, with bytes in its buffer.
unfoldable pub process_bytes : State → InputFile → List ℕ → Option State
process_bytes s f bytes = elim (after_backslash f.path) [
  | none ↦ none
  | some pname ↦ if length bytes == 0 then none else classify s pname bytes f.len
]

unfoldable pub process : State → InputFile → Option State
process s f = elim f.content [ none ↦ some s | some bytes ↦ process_bytes s f bytes ]

unfoldable pub process_all : State → List InputFile → Option State
process_all s [] = some s
process_all s (f ∷ fs) = elim (process s f) [ none ↦ none | some s' ↦ process_all s' fs ]

-- Versions of a section: above `min` and below `max`, in one of two ranges.
pub record Range : Type 0 where
  pub min1 : ℕ
  pub max1 : ℕ
  pub min2 : ℕ
  pub max2 : ℕ

pub data Title : Type 0 where
  version xenonbl zephyrbl falconbl jasperbl trinitybl coronabl commonbl flash unknown : Title

pub data Line : Type 0 where
  title : Title → Line
  number : ℕ → Line
  item : List ℕ → ℕ → Line

-- The tests of `showBls` and `hasBls` on an entry.
pub in_section : Range → Entry → Bool
in_section r e =
    let second = low_bits (e.magic >>> 16) 8 in
    let ver = bl_version e.magic in
    e.magic != 0
    && ((second == b'B' || second == b'D')
        && ((ltb r.min1 ver && ltb ver r.max1) || (ltb r.min2 ver && ltb ver r.max2)))

-- The loop of `showBls`: what it prints, and the entries behind it.
pub show_bls : Range → List Entry → List Line × List Entry
show_bls r [] = ([], [])
show_bls r (e ∷ es) =
    let (out, es') = show_bls r es in
    if in_section r e
    then (item e.name e.crc ∷ out, record e { magic = 0 } ∷ es')
    else (out, e ∷ es')

pub has_bls : Range → List Entry → Bool
has_bls r [] = false
has_bls r (e ∷ es) = if in_section r e then true else has_bls r es

pub display_bls : Title → Range → List Entry → List Line × List Entry
display_bls name r es =
    let (out, es') = show_bls r es in if has_bls r es then (title name ∷ out, es') else ([], es)

pub has_common : List Entry → Bool
has_common [] = false
has_common (e ∷ es) = if e.magic != 0 then true else has_common es

pub common_items : List Entry → List Line
common_items [] = []
common_items (e ∷ es) =
    if e.magic != 0 then item e.name e.crc ∷ common_items es else common_items es

pub show_common : List Entry → List Line
show_common es = if has_common es then title commonbl ∷ common_items es else []

abbrev pub sections : List (Title × Range)
sections =
    (xenonbl, record { min1 = 1000; max1 = 2000; min2 = 7000; max2 = 8000 })
    ∷ (zephyrbl, record { min1 = 4000; max1 = 5000; min2 = 0; max2 = 0 })
    ∷ (falconbl, record { min1 = 5000; max1 = 6000; min2 = 0; max2 = 0 })
    ∷ (jasperbl, record { min1 = 6000; max1 = 7000; min2 = 0; max2 = 0 })
    ∷ (trinitybl, record { min1 = 9000; max1 = 10000; min2 = 0; max2 = 0 })
    ∷ (coronabl, record { min1 = 13000; max1 = 15000; min2 = 12000; max2 = 12999 })
    ∷ []

-- The bootloaders of each console in turn, and what is left for all.
pub bootloader_lines : List (Title × Range) → List Entry → List Line
bootloader_lines [] es = show_common es
bootloader_lines ((name, r) ∷ rest) es =
    let (out, es') = display_bls name r es in out ++ bootloader_lines rest es'

pub plain_items : List Entry → List Line
plain_items [] = []
plain_items (e ∷ es) = item e.name e.crc ∷ plain_items es

pub listing : Title → List Entry → List Line
listing name [] = []
listing name (e ∷ es) = title name ∷ plain_items (e ∷ es)

pub report : State → List Line
report s =
    (if s.flash_ver != 0 then title version ∷ number s.flash_ver ∷ [] else [])
    ++ (bootloader_lines sections s.flash_bls
        ++ (listing flash s.flash_files ++ listing unknown s.other_files))

abbrev pub empty : State
empty = record { flash_files = []; other_files = []; flash_bls = []; flash_ver = 0 }

-- `main` of the tool.
pub run : List InputFile → Option (List Line)
run files = Option.map report (process_all empty files)
