-- ===== src/Svod/Open/Run.antt =====
-- A whole run of the tool: the scan decides what the writer writes.
use mathlib.Core.Option
use xe_build.Base.{
  ℕ, ◌+◌, ◌-◌, ◌/◌, ◌%◌, ◌^◌, ◌≤◌, ◌<◌, ◌≡◌, ◌∙◌, refl, ap, Bool, true, Option, some, List, arith,
  All, All-map, if◌then◌else◌, inl, inr, Bool-cases, Option-cases, none,
}
use xe_build.Svod.Disc.{Memory, Disc, set_iso_sector}
use xe_build.Svod.Writer.{Hash}
use xe_build.Svod.Writer.Blocks.{payload}
use xe_build.Svod.Package.{Package, iso_to_svod}
use xe_build.Svod.Package.Chain.{Converted, iso_to_svod_lem}
use xe_build.Svod.Scan.{State, Entry, sector_count, round_sector}
use xe_build.Svod.Scan.Tree.{Shape, weight, Holds, entries, directory_read, IsReadable}
use xe_build.Svod.Scan.Bounds.{IsSmall, IsTight, get_disk_end_lem}
use xe_build.Svod.Layout.{calc_data_blocks, calc_data_file_sizes}
use xe_build.Header.{prepare_header_file, store_volume_blocks, store_data_files}
use xe_build.Svod.Open.{
  get_xgd_base_offset, root_dir_sector, root_dir_size, XexInfo, dump_default_xex, opened, Opened,
  open_iso_file, Exit, gave_up, finished, write_package, main,
}

-- The image with the base offset that was found, and the entries below its root directory.
abbrev pub based : Disc → Disc
based d = record d { base = (get_xgd_base_offset d).base }

abbrev pub root_entries : (ℕ → Bool) → Disc → Shape → List Entry
root_entries alloc d t =
    let p = get_xgd_base_offset d in
    entries alloc (based d) t
      (directory_read alloc (based d) (root_dir_sector p) (root_dir_size p)).mem 0

-- The image that the tool is made for: it has the magic, and its directories form a tree of the
-- given shape, with names of 128 bytes at most, in sectors below 2^32 - 1, from a root directory
-- that can be read.
pub record IsImage (alloc : ℕ → Bool) (d : Disc) (t : Shape) : Type 0 where
  pub known : (get_xgd_base_offset d).ret ≡ true
  pub readable :
      IsReadable alloc
        (based d)
        (root_dir_sector (get_xgd_base_offset d))
        (root_dir_size (get_xgd_base_offset d))
  pub tree :
      Holds alloc
        (based d)
        t
        (round_sector (root_dir_size (get_xgd_base_offset d)))
        (directory_read alloc
          (based d)
          (root_dir_sector (get_xgd_base_offset d))
          (root_dir_size (get_xgd_base_offset d))).mem
        0
  pub root_small :
      root_dir_sector (get_xgd_base_offset d) + round_sector (root_dir_size (get_xgd_base_offset d))
      < 2 ^ 32 - 1
  pub small : All IsSmall (root_entries alloc d t)

module _ (alloc : ℕ → Bool) (xex_info : XexInfo) (d : Disc) (t : Shape)
    (image : IsImage alloc d t) where
  -- `openIsoFile` finds the tight bounds, and answers with what it makes of the executable.
  pub open_iso_file_lem :
      (fuel : ℕ) (h : Memory)
      → weight t ≤ fuel
      → (s : State) × (open_iso_file alloc xex_info fuel d h
          ≡ Option.map some (opened alloc xex_info (based d) s h))
        × IsTight
            (root_dir_sector (get_xgd_base_offset d))
            (root_dir_size (get_xgd_base_offset d))
            (root_entries alloc d t)
            s
  unfolding open_iso_file
  open_iso_file_lem fuel h enough =
      let (s, run, tight) =
        get_disk_end_lem alloc (based d) fuel (root_dir_sector (get_xgd_base_offset d))
          (root_dir_size (get_xgd_base_offset d)) t image.readable image.tree enough
          image.root_small image.small in
      (s, rw (image.known, run) refl, tight)

  -- The package of a run for bounds `s`, and how `main` ends.
  pub record Ends (sha : List ℕ → Hash) (run : Option Exit) (s : State) (p : Package) : Type 0 where
    pub tight :
        IsTight
          (root_dir_sector (get_xgd_base_offset d))
          (root_dir_size (get_xgd_base_offset d))
          (root_entries alloc d t)
          s
    pub converted :
        Converted sha (payload (based d) s.min_sector) ((s.max_sector - s.min_sector) / 2 + 1) p
    pub exit :
        run
        ≡ Option.map
            (λ o. if o.ret then finished sha o p else gave_up)
            (opened alloc xex_info (based d) s prepare_header_file)

  module _ (sha : List ℕ → Hash) (creates reopens : ℕ → Bool) where
    main_opened :
        (scan_fuel write_fuel : ℕ) (s : State) (p : Package)
        → open_iso_file alloc xex_info scan_fuel d prepare_header_file
          ≡ Option.map some (opened alloc xex_info (based d) s prepare_header_file)
        → iso_to_svod sha creates reopens (based d) write_fuel s.max_sector s.min_sector ≡ some p
        → main sha alloc xex_info creates reopens true scan_fuel write_fuel d
          ≡ Option.map
              (λ o. if o.ret then finished sha o p else gave_up)
              (opened alloc xex_info (based d) s prepare_header_file)
    unfolding main write_package opened
    main_opened scan_fuel write_fuel s p run done =
        let v = calc_data_blocks s.max_sector s.min_sector in
        let f = calc_data_file_sizes s.max_sector s.min_sector in
        let h = store_data_files f (store_volume_blocks v prepare_header_file) in
        elim (Option-cases (dump_default_xex alloc xex_info (based d) s h)) [
          | inl e ↦
              let op : opened alloc xex_info (based d) s prepare_header_file ≡ none =
                rw (e, opened) refl in
              let run' = run ∙ ap (Option.map some) op in rw (run', op, main) refl
          | inr g ↦
              let (r, e) = g in
              let o : Opened = record {
                ret = r.ret;
                disc = based d;
                state = s;
                volume = v;
                sizes = f;
                header = r.header;
              } in
              let op : opened alloc xex_info (based d) s prepare_header_file ≡ some o =
                rw (e, opened) refl in
              let run' = run ∙ ap (Option.map some) op in
              elim (Bool-cases r.ret) [
                | inl taken ↦ rw (run', op, main) (rw (taken, done, write_package) refl)
                | inr refused ↦ rw (run', op, main) (rw (refused, write_package) refl)
              ]
        ]

    -- For an image of the tool's kind, whose directories form a finite tree with names of 128 bytes
    -- at most, that holds every sector up to an even one, `last`, from 0x108
    -- on and below 2^32, behind the root directory and all entries of the tree, with every data
    -- file creatable and readable again and an output folder, `main` ends with fuel for the tree
    -- and for the sectors. The bounds are tight; the package holds the payload between them, with
    -- its headers chained. If `getXexInfoData` returns, so does `main`, with 0 exactly if the
    -- executable was taken and the package has more than one file, and exactly then the header is
    -- written.
    pub main_lem :
        (scan_fuel write_fuel last : ℕ)
        → ((n : ℕ) → creates n ≡ true)
        → ((n : ℕ) → reopens n ≡ true)
        → weight t ≤ scan_fuel
        → last % 2 ≡ 0
        → 0x108 ≤ last
        → last < 2 ^ 32
        → root_dir_sector (get_xgd_base_offset d)
            + round_sector (root_dir_size (get_xgd_base_offset d))
          ≤ last
        → All (λ e. e.sector + sector_count e ≤ last) (root_entries alloc d t)
        → set_iso_sector (based d) last ≤ d.size
        → last + 2 ≤ write_fuel
        → (s : State) × (p : Package) × Ends sha
            (main sha alloc xex_info creates reopens true scan_fuel write_fuel d)
            s
            p
    main_lem scan_fuel write_fuel last can can' enough even floor small root all whole fuel =
        let (s, run, tight) = open_iso_file_lem scan_fuel prepare_header_file enough in
        let below : (s.max_sector ≤ last) × (0 ≤ s.min_sector) =
          tight.least last 0 even refl floor root (omega arith)
            (All-map (λ e h. (h, omega arith)) (root_entries alloc d t) all) in
        let less : s.min_sector < s.max_sector =
          omega (arith, tight.root_low, tight.root_high, image.readable.0) in
        let (p, done, conv) =
          iso_to_svod_lem sha creates reopens (based d) write_fuel s.max_sector s.min_sector can
            can' (omega (arith, below.0)) less
            (omega (arith, tight.low_even, tight.high_even, less))
            (unfold set_iso_sector in omega (arith, floor, whole))
            (unfold set_iso_sector in omega (arith, below.0, whole)) (omega (arith, below.0)) in
        (
          s,
          p,
          record {
            tight = tight;
            converted = conv;
            exit = main_opened scan_fuel write_fuel s p run done;
          },
        )
