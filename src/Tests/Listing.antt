-- ===== src/Tests/Listing.antt =====
-- The theorems on the ini creator at a list of three files.
use xe_build.Base.{ℕ, ◌+◌, ◌≡◌, refl, none, some, List, [], ◌∷◌, replicate, take}
use xe_build.Bytes.{get_be32}
use xe_build.Crc.{crc32buf}
use xe_build.Ini.{
  zero_fill, process_bytes, has_room, add_bl, check_bl_magic, blank_of, Entry, InputFile, State,
  process_all, process, classify, after_backslash, empty, sections, bootloader_lines,
}
use xe_build.Ini.Sections.{item_weight, live_weight, bootloader_lines_weight}
use xe_build.Ini.Version.{newest_cf, process_all-newest_cf}

-- A CB of a Falcon, a CF, and one that was refused.
abbrev bootloaders : List Entry
bootloaders =
    record { name = 1 ∷ []; crc = 5; magic = 0x4342_1618 }
    ∷ record { name = 2 ∷ []; crc = 6; magic = 0x4346_3ffd }
    ∷ record { name = 3 ∷ []; crc = 0; magic = 0 }
    ∷ []

bootloader_lines_weight_example :
    item_weight (λ name crc. crc + 1) (bootloader_lines sections bootloaders)
    ≡ live_weight (λ name crc. crc + 1) bootloaders
bootloader_lines_weight_example = bootloader_lines_weight (λ name crc. crc + 1) sections bootloaders

-- The path `a\b` of a CF of version 1888 and of 0x230 bytes, and a file that cannot
-- be read.
abbrev cf_bytes : List ℕ
cf_bytes =
    0x43
    ∷ 0x46
    ∷ 0x07
    ∷ 0x60
    ∷ 0
    ∷ 0
    ∷ 0
    ∷ 0
    ∷ 0
    ∷ 0
    ∷ 0
    ∷ 0
    ∷ 0
    ∷ 0
    ∷ 0x02
    ∷ 0x30
    ∷ replicate 0x220 0

abbrev two_files : List InputFile
two_files =
    record { path = 0x61 ∷ 0x5c ∷ 0x62 ∷ []; content = some cf_bytes; len = 0x230 }
    ∷ record { path = []; content = none; len = 0 }
    ∷ []

abbrev with_cf : State
with_cf = record {
  flash_files = [];
  other_files = [];
  flash_bls =
      record {
        name = 0x62 ∷ [];
        crc = crc32buf (take 0x230 (zero_fill cf_bytes 0x20 0x210));
        magic = 0x4346_0760;
      }
      ∷ [];
  flash_ver = 0x760;
}

two_files_run : process_all empty two_files ≡ some with_cf
unfolding process_all process process_bytes after_backslash classify has_room add_bl check_bl_magic
    blank_of get_be32
two_files_run = refl

process_all-newest_cf_example : with_cf.flash_ver ≡ newest_cf 0 two_files
process_all-newest_cf_example = process_all-newest_cf two_files empty with_cf two_files_run
