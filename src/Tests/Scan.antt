-- ===== src/Tests/Scan.antt =====
-- The theorems on the scan of a disc, at an image with a root directory that holds a folder `bin`
-- with one file, and `default.xex`; everything else is padding.
use mathlib.Core.Option
use xe_build.Base.{
  ap, sym, ◌-◌, ◌+◌, ℕ, ◌≤◌, ◌≡◌, refl, Bool, true, some, none, List, [], ◌∷◌, ◌++◌, take, arith,
  length, ltb, leb, ◌&&◌, if◌then◌else◌, inl, All,
}
use xe_build.Bytes.{byte_at, get_le16, get_le32}
use xe_build.Stfs.{same_hash}
use xe_build.Svod.Disc.{Memory, Disc, set_iso_sector, read_iso_data, slice}
use xe_build.Svod.Writer.{Hash}
use xe_build.Svod.Package.{Package}
use xe_build.Svod.Scan.{
  State, same_text, entry_at, round_sector, sector_count, scan_entries, get_disk_end, note_extent,
  note_file,
}
use xe_build.Svod.Scan.Tree.{
  Shape, end, padding, leaf, sub, weight, Holds, entries, note_all, note_entry, directory_read,
  IsReadable, scan_tree,
}
use xe_build.Svod.Scan.Bounds.{IsSmall, IsTight, get_disk_end_lem}
use xe_build.Svod.Scan.Hang.{scan_entries_hangs}
use xe_build.Svod.Open.{
  iso_read_internal, image_magic, try_magic, get_xgd_base_offset, root_dir_sector, root_dir_size,
  XexInfo, main,
}
use xe_build.Spa.Strings.{Parsed}
use xe_build.Spa.Frame.{length-slice}
use xe_build.Header.Content.{KeepsCounts}
use xe_build.Svod.Layout.{calc_data_blocks, calc_data_file_sizes}
use xe_build.Svod.Open.Written.{Writes, main-HeaderFile}
use xe_build.Svod.Open.Magic.{has_xdk_head, is_known, get_xgd_base_offset_lem}
use xe_build.Svod.Open.Run.{based, root_entries, IsImage, Ends, main_lem}

abbrev region : ℕ → List ℕ → (ℕ → ℕ) → ℕ → ℕ
region at bytes rest k =
    if leb at k && ltb k (at + length bytes) then byte_at bytes (k - at) else rest k

-- Bytes 20 to 27 of the header are the root directory's sector and size.
abbrev head_bytes : List ℕ
head_bytes = image_magic ++ (0x30 ∷ 0 ∷ 0 ∷ 0 ∷ 0 ∷ 0x8 ∷ 0 ∷ 0 ∷ [])

abbrev bin_entry : List ℕ
bin_entry =
    0 ∷ 0 ∷ 0 ∷ 0 ∷ 0x32 ∷ 0 ∷ 0 ∷ 0 ∷ 0 ∷ 8 ∷ 0 ∷ 0 ∷ 0x10 ∷ 3 ∷ 0x62 ∷ 0x69 ∷ 0x6e ∷ 0 ∷ 0 ∷ 0
    ∷ []

abbrev xex_entry : List ℕ
xex_entry =
    0 ∷ 0 ∷ 0 ∷ 0 ∷ 0x40 ∷ 0 ∷ 0 ∷ 0 ∷ 0 ∷ 0x10 ∷ 0 ∷ 0 ∷ 0x80 ∷ 11 ∷ 0x44 ∷ 0x65 ∷ 0x66 ∷ 0x61
    ∷ 0x75 ∷ 0x6c ∷ 0x74 ∷ 0x2e ∷ 0x78 ∷ 0x65 ∷ 0x78 ∷ 0 ∷ 0 ∷ 0 ∷ []

abbrev file_entry : List ℕ
file_entry = 0 ∷ 0 ∷ 0 ∷ 0 ∷ 0x51 ∷ 0 ∷ 0 ∷ 0 ∷ 1 ∷ 0 ∷ 0 ∷ 0 ∷ 0x80 ∷ 1 ∷ 0x61 ∷ 0 ∷ []

abbrev image : Disc
image = record {
  byte = region 0x10000 head_bytes (
      region 0x107ec image_magic
        (region 0x18000 (bin_entry ++ xex_entry) (region 0x19000 file_entry (λ k. 255))));
  size = 0x500000;
  base = 0;
}

abbrev shape : Shape
shape = sub (leaf (padding end)) (leaf (padding end))

abbrev always : ℕ → Bool
always n = true

abbrev root_buffer : Memory
root_buffer = (directory_read always image 0x30 0x800).mem

image-IsReadable : IsReadable always image 0x30 0x800
unfolding read_iso_data set_iso_sector
image-IsReadable = (omega arith, refl)

image-Holds : Holds always image shape 0x800 root_buffer 0
unfolding Holds entry_at read_iso_data set_iso_sector get_le16 get_le32 slice
image-Holds = (
  omega arith,
  (refl, omega arith),
  refl,
  omega arith,
  (omega arith, refl),
  (omega arith, (refl, omega arith), inl refl, (omega arith, refl, omega arith)),
  (omega arith, (refl, omega arith), inl refl, (omega arith, refl, omega arith)),
)

scan_tree_example :
    scan_entries always image 7 0x800 root_buffer 0
      (record { max_sector = 0x108; min_sector = 0x30; xex_sector = 0; xex_size = 0 })
    ≡ some (record { max_sector = 0x108; min_sector = 0x30; xex_sector = 0x40; xex_size = 0x1000 })
unfolding note_all note_entry same_text note_extent note_file entries entry_at read_iso_data
    set_iso_sector get_le16 get_le32 slice
scan_tree_example =
    scan_tree always image shape 7 0x800 root_buffer 0
      (record { max_sector = 0x108; min_sector = 0x30; xex_sector = 0; xex_size = 0 }) image-Holds
      (unfold weight in omega arith)

root-IsSmall : All IsSmall (entries always image shape root_buffer 0)
unfolding entries entry_at read_iso_data set_iso_sector get_le16 get_le32 slice
root-IsSmall = (omega arith, (omega arith, (omega arith, tt)))

get_disk_end_lem_example :
    (s : State) × (get_disk_end always image 7 0x30 0x800 ≡ some (record { ok = true; state = s }))
    × IsTight 0x30 0x800 (entries always image shape root_buffer 0) s
get_disk_end_lem_example =
    get_disk_end_lem always image 7 0x30 0x800 shape image-IsReadable image-Holds
      (unfold weight in omega arith) (omega arith) root-IsSmall

-- A directory of one sector that is all padding.
scan_entries_hangs_example :
    scan_entries always image 1000 0x800
      (λ k. 255)
      0
      (record { max_sector = 0x108; min_sector = 0x30; xex_sector = 0; xex_size = 0 })
    ≡ none
scan_entries_hangs_example =
    scan_entries_hangs always image 1000 0x800 (λ k. 255) 0
      (record { max_sector = 0x108; min_sector = 0x30; xex_sector = 0; xex_size = 0 }) (omega arith)
      (omega arith) refl (unfold entry_at get_le16 slice in refl)

get_xgd_base_offset_lem_example :
    ((get_xgd_base_offset image).ret ≡ (
      if has_xdk_head image
      then true
      else if is_known image 0x2090000
      then true
      else is_known image 0xfda0000))
    × ((get_xgd_base_offset image).base ≡ (
        if has_xdk_head image
        then 0
        else if is_known image 0x2090000
        then 0x2080000
        else if is_known image 0xfda0000
        then 0xfd90000
        else image.base))
get_xgd_base_offset_lem_example = get_xgd_base_offset_lem image (omega arith)

image-IsImage : IsImage always image shape
unfolding get_xgd_base_offset try_magic iso_read_internal same_hash slice get_le32
image-IsImage = record {
  known = refl;
  readable = image-IsReadable;
  tree = image-Holds;
  root_small = omega arith;
  small = root-IsSmall;
}

root_ends :
    root_dir_sector (get_xgd_base_offset image)
      + round_sector (root_dir_size (get_xgd_base_offset image))
    ≤ 0x830
unfolding get_xgd_base_offset try_magic iso_read_internal same_hash slice get_le32
root_ends = omega arith

entries_end : All (λ e. e.sector + sector_count e ≤ 0x830) (root_entries always image shape)
unfolding get_xgd_base_offset try_magic iso_read_internal same_hash entries entry_at read_iso_data
    set_iso_sector get_le16 get_le32 slice
entries_end = (omega arith, (omega arith, (omega arith, tt)))

image_whole : set_iso_sector (based image) 0x830 ≤ image.size
unfolding set_iso_sector get_xgd_base_offset try_magic iso_read_internal same_hash slice get_le32
image_whole = omega arith

abbrev digest : List ℕ → Hash
digest bytes = take 20 bytes

-- `getXexInfoData` that accepts every executable and stores nothing.
abbrev kept_header : XexInfo
kept_header mem n h = some (record { ret = true; header = h })

-- Twenty bytes of what is hashed.
abbrev digest20 : List ℕ → Hash
digest20 bytes = slice (λ k. byte_at bytes k) 0 20

main_lem_example :
    (s : State) × (p : Package) × Ends always kept_header image shape image-IsImage digest
      (main digest always kept_header always always true 7 3000 image)
      s
      p
main_lem_example =
    main_lem always kept_header image shape image-IsImage digest always always 7 3000 0x830
      (λ n. refl) (λ n. refl) (unfold weight in omega arith) refl (omega arith) (omega arith)
      root_ends entries_end image_whole (omega arith)

kept_header-KeepsCounts : KeepsCounts kept_header
kept_header-KeepsCounts mem n h r run k is =
    let r' : Parsed = record { ret = true; header = h } in
    ap (λ (q : Parsed). q.header k) (sym (Option.some-injective r' r run))

length-digest20 : (bytes : List ℕ) → length (digest20 bytes) ≡ 20
length-digest20 bytes = length-slice (λ k. byte_at bytes k) 0 20

main-HeaderFile_example :
    (s : State) × (p : Package) × Writes digest20
      (calc_data_blocks s.max_sector s.min_sector)
      (calc_data_file_sizes s.max_sector s.min_sector)
      p
      (main digest20 always kept_header always always true 7 3000 image)
main-HeaderFile_example =
    let (s, p, ends) =
      main_lem always kept_header image shape image-IsImage digest20 always always 7 3000 0x830
        (λ n. refl) (λ n. refl) (unfold weight in omega arith) refl (omega arith) (omega arith)
        root_ends entries_end image_whole (omega arith) in
    (
      s,
      p,
      main-HeaderFile always kept_header kept_header-KeepsCounts image shape image-IsImage digest20
          length-digest20 s p (main digest20 always kept_header always always true 7 3000 image)
          ends,
    )
