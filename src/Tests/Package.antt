-- ===== src/Tests/Package.antt =====
-- The theorems on isoio.c at an image of 83,000 sectors in use, which take two data files.
use xe_build.Base.{
  ◌==◌, ◌⊎◌, ◌/◌, ◌+◌, ℕ, ◌%◌, ◌≤◌, ◌≡◌, refl, true, some, List, take, arith, length,
}
use xe_build.Svod.Disc.{Disc, set_iso_sector}
use xe_build.Svod.Writer.Ends.{write_iso_body_ends}
use xe_build.Svod.Layout.Descriptor.{
  starting_data_block, number_of_data_blocks, calc_data_blocks_lem,
}
use xe_build.Svod.Layout.{calc_data_blocks, calc_data_file_sizes}
use xe_build.Svod.Writer.{Hash, Outcome, write_iso_body}
use xe_build.Svod.Writer.Blocks.{payload}
use xe_build.Svod.Writer.Body.{Wrote, write_iso_body_lem}
use xe_build.Svod.Writer.Sizes.{files_size, calc_data_file_sizes-Wrote}
use xe_build.Svod.Package.{Package, iso_to_svod}
use xe_build.Svod.Package.Chain.{Converted, iso_to_svod_lem}

abbrev digest : List ℕ → Hash
digest bytes = take 20 bytes

abbrev image : Disc
image = record { byte = λ k. k % 251; size = 0x20000000; base = 0 }

image_head : set_iso_sector image 0x20 + 0x1000 ≤ image.size
unfolding set_iso_sector
image_head = omega arith

image_tail : set_iso_sector image 83032 ≤ image.size
unfolding set_iso_sector
image_tail = omega arith

write_iso_body_lem_example :
    (o : Outcome) × (write_iso_body digest (λ n. true) image 90000 83032 32 ≡ some o)
    × Wrote digest image 32 41501 o
write_iso_body_lem_example =
    write_iso_body_lem digest (λ n. true) image 90000 83032 32 (λ n. refl) (omega arith)
      (omega arith) refl image_head image_tail (omega arith)

iso_to_svod_lem_example :
    (p : Package) × (iso_to_svod digest (λ n. true) (λ n. true) image 90000 83032 32 ≡ some p)
    × Converted digest (payload image 32) 41501 p
iso_to_svod_lem_example =
    iso_to_svod_lem digest (λ n. true) (λ n. true) image 90000 83032 32 (λ n. refl) (λ n. refl)
      (omega arith) (omega arith) refl image_head image_tail (omega arith)

abbrev run :
    (o : Outcome) × (write_iso_body digest (λ n. true) image 90000 83032 32 ≡ some o)
    × Wrote digest image 32 41501 o
run =
    write_iso_body_lem digest (λ n. true) image 90000 83032 32 (λ n. refl) (omega arith)
      (omega arith) refl image_head image_tail (omega arith)

calc_data_file_sizes-Wrote_example :
    ((calc_data_file_sizes 83032 32).data_files ≡ length run.0.files)
    × ((calc_data_file_sizes 83032 32).data_files_size ≡ files_size run.0.files)
calc_data_file_sizes-Wrote_example =
    calc_data_file_sizes-Wrote digest image 83032 32 run.0 (omega arith) (omega arith) refl run.2

-- An image of which only the first sector can be read, and a host that can create one file.
write_iso_body_ends_example :
    (o : Outcome) × (write_iso_body digest (λ n. n == 0) (record image { size = 0x800 }) 8 38 33
      ≡ some o)
    × ((o.ret ≡ 0) ⊎ (o.ret + 1 ≡ length o.files))
write_iso_body_ends_example =
    write_iso_body_ends digest (λ n. n == 0) (record image { size = 0x800 }) 8 38 33 (omega arith)

calc_data_blocks_lem_example :
    let v = calc_data_blocks 83032 32 in
    (starting_data_block v ≡ 32 / 2)
    × (number_of_data_blocks v + 1 ≡ (calc_data_file_sizes 83032 32).data_sectors)
calc_data_blocks_lem_example = calc_data_blocks_lem 83032 32 (omega arith) (omega arith) refl
