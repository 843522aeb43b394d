-- ===== src/Svod/Writer/Sizes.antt =====
-- The sizes that `calcDataFileSizes` announces against the files that `writeIsoBody` writes.
use xe_build.Base.{
  ℕ, ◌+◌, ◌-◌, ◌*◌, ◌/◌, ◌%◌, ◌^◌, ◌≤◌, ◌<◌, min, ◌≡◌, List, [], ◌∷◌, length, arith,
}
use xe_build.Svod.Disc.{Memory, Disc}
use xe_build.Svod.Layout.{calc_data_file_sizes}
use xe_build.Svod.Writer.{Hash, Block, SvodFile, Outcome}
use xe_build.Svod.Writer.Blocks.{blocks_for, files_for, BlocksAre, FilesAre}
use xe_build.Svod.Writer.Body.{Wrote}

-- The bytes of the blocks of a file: for each a hash page and its chunks.
pub blocks_size : List Block → ℕ
blocks_size [] = 0
blocks_size (b ∷ bs) = b.chunks * 0x1000 + 0x1000 + blocks_size bs

-- The bytes of all files: for each a hash page and its blocks.
pub files_size : List SvodFile → ℕ
files_size [] = 0
files_size (f ∷ fs) = 0x1000 + blocks_size f.blocks + files_size fs

module _ (sha : List ℕ → Hash) (source : Memory) (total : ℕ) where
  blocks_size_lem :
      (base : ℕ) (entries : ℕ → Hash) (bs : List Block)
      → BlocksAre sha source total base entries bs
      → blocks_size bs
        ≡ (min total ((base + length bs) * 0xcc) - min total (base * 0xcc) + length bs) * 0x1000
  unfolding blocks_size
  blocks_size_lem base entries [] h = omega arith
  blocks_size_lem base entries (b ∷ bs) h =
      omega (arith, h.0.count, blocks_size_lem base entries bs h.2)

  files_size_lem :
      (fs : List SvodFile)
      → FilesAre sha source total fs
      → length fs ≤ files_for (blocks_for total)
      → files_size fs
        ≡ (length fs
            + min (blocks_for total) (length fs * 0xcb)
            + min total (length fs * 0xcb * 0xcc))
          * 0x1000
  unfolding files_size
  files_size_lem [] h le = omega arith
  files_size_lem (f ∷ fs) h le = omega (
    arith,
    h.0.count,
    blocks_size_lem (length fs * 0xcb) f.header.entries f.blocks h.0.blocks,
    files_size_lem fs h.1 (omega arith),
  )

-- For an even and positive number of sectors in use, the file count and the total size that
-- `calcDataFileSizes` puts into the header are those of the files of every package that
-- `writeIsoBody` leaves for these sectors.
pub calc_data_file_sizes-Wrote :
    (sha : List ℕ → Hash) (d : Disc) (max_sector min_sector : ℕ) (o : Outcome)
    → max_sector < 2 ^ 32
    → min_sector < max_sector
    → (max_sector - min_sector) % 2 ≡ 0
    → Wrote sha d min_sector ((max_sector - min_sector) / 2 + 1) o
    → ((calc_data_file_sizes max_sector min_sector).data_files ≡ length o.files)
      × ((calc_data_file_sizes max_sector min_sector).data_files_size ≡ files_size o.files)
unfolding calc_data_file_sizes
calc_data_file_sizes-Wrote sha d max_sector min_sector o small less even w =
    let total = (max_sector - min_sector) / 2 + 1 in
    let sizes = files_size_lem sha _ total o.files w.files (omega (arith, w.count)) in
    (ground (arith, w.count), ground (arith, w.count, sizes))
