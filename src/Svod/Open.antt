-- ===== src/Svod/Open.antt =====
-- `getXgdBaseOffset`, `dumpDefaultXex` and `openIsoFile` of tools/iso2svod/source/isoio.c, and the
-- run of `main` in tools/iso2svod/source/main.c, with the package header that goes through them.
-- `getXexInfoData`, which stores the texts in the header, and `prepareOutputPath` are parameters.
pub mod Magic
pub mod Run
pub mod Written
use mathlib.Core.Option
use xe_build.Base.{
  ℕ, zero, suc, ◌+◌, ◌-◌, ◌*◌, Bool, true, false, not, ◌&&◌, ◌||◌, Option, none, some, List, [],
  ◌∷◌, ltb, ◌==◌, if◌then◌else◌,
}
use xe_build.Bytes.{get_le32}
use xe_build.Header.{
  prepare_header_file, store_volume_blocks, store_data_files, store_first_hash,
  finalize_header_file,
}
use xe_build.Spa.Strings.{Parsed}
use xe_build.Stfs.{same_hash}
use xe_build.Svod.Disc.{Memory, Disc, set_iso_sector, read_iso_data, slice}
use xe_build.Svod.Layout.{DataFiles, VolumeBlocks, calc_data_blocks, calc_data_file_sizes}
use xe_build.Svod.Writer.{Hash}
use xe_build.Svod.Package.{Package, iso_to_svod}
use xe_build.Svod.Scan.{State, Scanned, blank, round_sector, get_disk_end}

-- `isoReadInternal`: as many bytes as the file has.
unfoldable pub iso_read_internal : Disc → ℕ → Memory → ℕ → Memory
iso_read_internal d offset dest len =
    λ k. if ltb k len && ltb (offset + k) d.size then d.byte (offset + k) else dest k

-- `XGD_IMAGE_MAGIC`.
abbrev pub image_magic : List ℕ
image_magic =
    0x4d ∷ 0x49 ∷ 0x43 ∷ 0x52 ∷ 0x4f ∷ 0x53 ∷ 0x4f ∷ 0x46 ∷ 0x54 ∷ 0x2a ∷ 0x58 ∷ 0x42 ∷ 0x4f ∷ 0x58
    ∷ 0x2a ∷ 0x4d ∷ 0x45 ∷ 0x44 ∷ 0x49 ∷ 0x41 ∷ []

abbrev pub magic_offset_xdki : ℕ
magic_offset_xdki = 0x10000

abbrev pub magic_offset_xgd2 : ℕ
magic_offset_xgd2 = 0xfda0000

abbrev pub magic_offset_xgd3 : ℕ
magic_offset_xgd3 = 0x2090000

-- The tests on `sectorBuffer`: the magic at its start, and at the end of an `XISO_HEAD`.
abbrev pub starts_with_magic : Memory → Bool
starts_with_magic buf = same_hash (slice buf 0 20) image_magic

abbrev pub is_xdk_head : Memory → Bool
is_xdk_head buf = starts_with_magic buf && same_hash (slice buf 0x7ec 20) image_magic

-- `ret`, `sectorBuffer` and `baseOffset`.
pub record Probe : Type 0 where
  pub ret : Bool
  pub buffer : Memory
  pub base : ℕ

-- One of the three `if`s of `getXgdBaseOffset`.
unfoldable pub try_magic : Disc → ℕ → (Memory → Bool) → Probe → Probe
try_magic d offset test p =
    let buf = iso_read_internal d offset p.buffer 0x800 in
    if not p.ret && ltb (offset + 20) d.size
    then (if test buf
        then record { ret = true; buffer = buf; base = offset - 0x10000 }
        else record p { buffer = buf })
    else p

unfoldable pub get_xgd_base_offset : Disc → Probe
get_xgd_base_offset d = try_magic d magic_offset_xgd2 starts_with_magic (
    try_magic d magic_offset_xgd3 starts_with_magic (
      try_magic d magic_offset_xdki is_xdk_head
        (record { ret = false; buffer = blank; base = d.base })))

abbrev pub root_dir_sector : Probe → ℕ
root_dir_sector p = get_le32 (slice p.buffer 20 4) 0

abbrev pub root_dir_size : Probe → ℕ
root_dir_size p = get_le32 (slice p.buffer 24 4) 0

-- What `openIsoFile` leaves: its result, the image with its base offset, the two bounds, the
-- counts, and the header that they are stored in.
pub record Opened : Type 0 where
  pub ret : Bool
  pub disc : Disc
  pub state : State
  pub volume : VolumeBlocks
  pub sizes : DataFiles
  pub header : Memory

-- `getXexInfoData` on a file of a size and the header; `none` where it does not return.
abbrev pub XexInfo : Type 0
XexInfo = Memory → ℕ → Memory → Option Parsed

module _ (alloc : ℕ → Bool) (xex_info : XexInfo) where
  pub dump_default_xex : Disc → State → Memory → Option Parsed
  dump_default_xex d s h =
      let bufsz = round_sector s.xex_size in
      let r = read_iso_data d (set_iso_sector d s.xex_sector) blank 0 bufsz in
      let failed : Parsed = record { ret = false; header = h } in
      if s.xex_sector == 0 || s.xex_size == 0
      then some failed
      else if alloc bufsz && r.success
      then xex_info r.mem s.xex_size h
      else some failed

  -- The three calls once the end of the disc is known. `calcDataBlocks` comes first.
  pub opened : Disc → State → Memory → Option Opened
  opened d s h =
      let v = calc_data_blocks s.max_sector s.min_sector in
      let f = calc_data_file_sizes s.max_sector s.min_sector in
      elim (dump_default_xex d s (store_data_files f (store_volume_blocks v h))) [
        | none ↦ none
        | some r ↦
            some (record {
              ret = r.ret;
              disc = d;
              state = s;
              volume = v;
              sizes = f;
              header = r.header;
            })
      ]

  -- `some none` stands for the two early failures, after which nothing else is read.
  pub open_iso_file : ℕ → Disc → Memory → Option (Option Opened)
  open_iso_file fuel d h =
      let p = get_xgd_base_offset d in
      let d' : Disc = record d { base = p.base } in
      if p.ret
      then elim (get_disk_end alloc d' fuel (root_dir_sector p) (root_dir_size p)) [
        | none ↦ none
        | some r ↦ if r.ok then Option.map some (opened d' r.state h) else some none
      ]
      else some none

-- How `main` ends: the value that it returns, the package where it came that far, and the header
-- if it was written.
pub record Exit : Type 0 where
  pub ret_val : Bool
  pub result : Option Package
  pub header_file : Option Memory

abbrev pub gave_up : Exit
gave_up = record { ret_val = false; result = none; header_file = none }

-- The header behind `isoToSvod`.
abbrev pub with_first_hash : Option Hash → Memory → Memory
with_first_hash none h = h
with_first_hash (some hash) h = store_first_hash hash h

abbrev pub finished : (List ℕ → Hash) → Opened → Package → Exit
finished sha o p = record {
  ret_val = p.success;
  result = some p;
  header_file =
      if p.success
      then some (finalize_header_file sha (with_first_hash p.first_hash o.header))
      else none;
}

module _ (sha : List ℕ → Hash) (alloc : ℕ → Bool) (xex_info : XexInfo) (creates reopens : ℕ → Bool)
    (output_path : Bool) where
  -- `main` behind `openIsoFile`. `ret_val` is true for 0.
  pub write_package : ℕ → Opened → Option Exit
  write_package fuel o =
      if o.ret && output_path
      then Option.map (finished sha o)
          (iso_to_svod sha creates reopens o.disc fuel o.state.max_sector o.state.min_sector)
      else some gave_up

  pub main : ℕ → ℕ → Disc → Option Exit
  main scan_fuel write_fuel d =
      elim (open_iso_file alloc xex_info scan_fuel d prepare_header_file) [
        | none ↦ none
        | some none ↦ some gave_up
        | some (some o) ↦ write_package write_fuel o
      ]
