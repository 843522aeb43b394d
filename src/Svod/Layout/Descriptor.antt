-- ===== src/Svod/Layout/Descriptor.antt =====
-- What the volume descriptor says of the disc.
use xe_build.Base.{ℕ, ◌+◌, ◌-◌, ◌*◌, ◌/◌, ◌%◌, ◌^◌, ◌<◌, ◌≡◌, arith}
use xe_build.Svod.Layout.{VolumeBlocks, calc_data_blocks, calc_data_file_sizes}

-- The numbers that the three bytes of a field make.
pub starting_data_block : VolumeBlocks → ℕ
starting_data_block v =
    v.starting_data_block2 * 2 ^ 16 + v.starting_data_block1 * 2 ^ 8 + v.starting_data_block0

pub number_of_data_blocks : VolumeBlocks → ℕ
number_of_data_blocks v =
    v.number_of_data_blocks2 * 2 ^ 16 + v.number_of_data_blocks1 * 2 ^ 8 + v.number_of_data_blocks0

-- For an even and positive number of sectors in use that all lie below 2^25, the bytes of the
-- volume descriptor give back the first sector in units of 0x1000 bytes, and one less than the
-- number of such units for which `calcDataFileSizes` makes room.
pub calc_data_blocks_lem :
    (max_sector min_sector : ℕ)
    → max_sector < 2 ^ 25
    → min_sector < max_sector
    → (max_sector - min_sector) % 2 ≡ 0
    → let v = calc_data_blocks max_sector min_sector in
      (starting_data_block v ≡ min_sector / 2)
      × (number_of_data_blocks v + 1 ≡ (calc_data_file_sizes max_sector min_sector).data_sectors)
unfolding calc_data_blocks calc_data_file_sizes starting_data_block number_of_data_blocks
calc_data_blocks_lem max_sector min_sector small less even = (omega arith, omega arith)
