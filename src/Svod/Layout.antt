-- ===== src/Svod/Layout.antt =====
-- `calcDataFileSizes` and `calcDataBlocks` of tools/iso2svod/source/isoio.c: the counts that go
-- into the package header, from the first and the last sector in use.
pub mod Descriptor
use xe_build.Base.{ℕ, ◌+◌, ◌*◌, ◌/◌, ◌%◌, low_bits, ◌>>>◌, ◌!=◌, if◌then◌else◌, u32, u64, sub32}

-- The values that `calcDataFileSizes` stores; the header holds them with their bytes swapped.
pub record DataFiles : Type 0 where
  pub data_sectors : ℕ
  pub data_blocks : ℕ
  pub data_files : ℕ
  pub data_files_size : ℕ

-- Quotient of a `u32` count, rounded up in the way the code does it.
unfoldable pub round_up_div : ℕ → ℕ → ℕ
round_up_div n d = if n % d != 0 then n / d + 1 else n / d

unfoldable pub calc_data_file_sizes : ℕ → ℕ → DataFiles
unfolding round_up_div
calc_data_file_sizes max_sector min_sector =
    let sectors = u32 (u32 (sub32 max_sector min_sector + 1) / 2 + 1) in
    let blocks = round_up_div sectors 0xcc in
    let files = round_up_div blocks 0xcb in
    record {
      data_sectors = sectors;
      data_blocks = blocks;
      data_files = files;
      data_files_size = u64 (files * 0x1000 + sectors * 0x1000 + blocks * 0x1000);
    }

-- The fields of the SVOD volume descriptor that `calcDataBlocks` fills in.
pub record VolumeBlocks : Type 0 where
  pub starting_data_block2 : ℕ
  pub starting_data_block1 : ℕ
  pub starting_data_block0 : ℕ
  pub number_of_data_blocks2 : ℕ
  pub number_of_data_blocks1 : ℕ
  pub number_of_data_blocks0 : ℕ

unfoldable pub calc_data_blocks : ℕ → ℕ → VolumeBlocks
calc_data_blocks max_sector min_sector =
    let start = min_sector / 2 in
    let size = sub32 max_sector min_sector / 2 in
    record {
      starting_data_block2 = low_bits (start >>> 16) 8;
      starting_data_block1 = low_bits (start >>> 8) 8;
      starting_data_block0 = low_bits start 8;
      number_of_data_blocks2 = low_bits (size >>> 16) 8;
      number_of_data_blocks1 = low_bits (size >>> 8) 8;
      number_of_data_blocks0 = low_bits size 8;
    }
