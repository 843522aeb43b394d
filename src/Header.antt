-- ===== src/Header.antt =====
-- The package header that tools/iso2svod/source/main.c keeps in `headerBuffer`, with the structures
-- of xcontent.h: `XCONTENT_HEADER` at 0 and `XCONTENT_METADATA` (`xMeta`) at 0x344. A field is a
-- place in the buffer; a number that is stored with its bytes swapped stands with the highest
-- first.
pub mod Stores
pub mod Content
use xe_build.Base.{ℕ, ◌+◌, ◌-◌, ◌*◌, bit_or, List, [], ◌∷◌, replicate, ltb, if◌then◌else◌}
use xe_build.Bytes.{bytes32, bytes64}
use xe_build.Svod.Disc.{Memory, slice, store}
use xe_build.Svod.Layout.{DataFiles, VolumeBlocks}
use xe_build.Svod.Writer.{Hash}

abbrev pub header_size : ℕ
header_size = 0xb000

-- Fields of `XCONTENT_HEADER`.
abbrev pub license_descriptors : ℕ
license_descriptors = 0x22c

abbrev pub content_id : ℕ
content_id = 0x32c

abbrev pub size_of_headers : ℕ
size_of_headers = 0x340

-- Fields of `XCONTENT_METADATA`, and of the SVOD volume descriptor in it.
abbrev pub meta : ℕ
meta = 0x344

abbrev pub execution_id_at : ℕ
execution_id_at = meta + 0x10

abbrev pub volume_at : ℕ
volume_at = meta + 0x35

abbrev pub first_hash_at : ℕ
first_hash_at = volume_at + 4

abbrev pub data_files_at : ℕ
data_files_at = meta + 0x59

abbrev pub data_files_size_at : ℕ
data_files_size_at = meta + 0x5d

abbrev pub volume_type_at : ℕ
volume_type_at = meta + 0x65

abbrev pub title_name_at : ℕ
title_name_at = meta + 0x134d

abbrev pub thumbnail_size_at : ℕ
thumbnail_size_at = meta + 0x13ce

abbrev pub title_thumbnail_size_at : ℕ
title_thumbnail_size_at = meta + 0x13d2

abbrev pub thumbnail_at : ℕ
thumbnail_at = meta + 0x13d6

abbrev pub title_thumbnail_at : ℕ
title_thumbnail_at = meta + 0x53d6

-- `DisplayName[i]`, `DisplayNameEx[i]`, `Description[i]` and `DescriptionEx[i]`.
abbrev pub display_name_at : ℕ → ℕ
display_name_at i = meta + 0xcd + 0x100 * i

abbrev pub display_name_ex_at : ℕ → ℕ
display_name_ex_at i = meta + 0x50d6 + 0x100 * i

abbrev pub description_at : ℕ → ℕ
description_at i = meta + 0x9cd + 0x100 * i

abbrev pub description_ex_at : ℕ → ℕ
description_ex_at i = meta + 0x90d6 + 0x100 * i

-- `prepareHeaderFile`, in the order of its statements.
unfoldable pub prepare_volume : Memory → Memory
prepare_volume h =
    let h = store h volume_at (0x24 ∷ 5 ∷ 5 ∷ 0x11 ∷ []) in
    store h (volume_at + 0x18) (bit_or (h (volume_at + 0x18)) 0x40 ∷ [])

unfoldable pub prepare_header_file : Memory
unfolding prepare_volume
prepare_header_file =
    let h = store (λ k. 0) 0 (bytes32 0x4c495645) in
    let h = store h size_of_headers (bytes32 0xad0e) in
    let h = store h license_descriptors (replicate 8 0xff) in
    let h = store h meta (bytes32 0x7000) in
    let h = store h (meta + 4) (bytes32 2) in prepare_volume (store h volume_type_at (bytes32 1))

-- What `calcDataBlocks` and `calcDataFileSizes` store, and `fixIsoHeaders` at its end.
unfoldable pub store_volume_blocks : VolumeBlocks → Memory → Memory
store_volume_blocks v h = store h (volume_at + 0x19) (
    v.number_of_data_blocks2 ∷ v.number_of_data_blocks1 ∷ v.number_of_data_blocks0
    ∷ v.starting_data_block0 ∷ v.starting_data_block1 ∷ v.starting_data_block2 ∷ [])

unfoldable pub store_data_files : DataFiles → Memory → Memory
store_data_files f h =
    store (store h data_files_at (bytes32 f.data_files)) data_files_size_at
      (bytes64 f.data_files_size)

unfoldable pub store_first_hash : Hash → Memory → Memory
store_first_hash hash h = store h first_hash_at hash

-- `finalizeHeaderFile`.
unfoldable pub finalize_header_file : (List ℕ → Hash) → Memory → Memory
finalize_header_file sha h = store h content_id (sha (slice h meta (header_size - meta)))
