-- ===== src/Svod/Open/Written.antt =====
-- The header that a whole run writes.
use mathlib.Core.Option
use mathlib.Core.Path.{subst}
use xe_build.Base.{
  ℕ, ◌+◌, ◌-◌, ◌/◌, ◌<◌, ◌≡◌, refl, sym, ap, ◌∙◌, Bool, true, false, ◌&&◌, ◌||◌, Option, none, some,
  List, [], ◌∷◌, length, arith, leb, ◌==◌, inl, inr, Bool-cases, Option-cases,
}
use xe_build.Svod.Disc.{Memory, Disc, read_iso_data, set_iso_sector}
use xe_build.Svod.Layout.{DataFiles, VolumeBlocks, calc_data_blocks, calc_data_file_sizes}
use xe_build.Svod.Writer.{Hash, SvodFile, level1_page}
use xe_build.Svod.Writer.Blocks.{blocks_for}
use xe_build.Svod.Package.{Package}
use xe_build.Svod.Package.Chain.{Linked, IsChain}
use xe_build.Svod.Scan.{State, round_sector, blank}
use xe_build.Svod.Scan.Tree.{Shape}
use xe_build.Header.{prepare_header_file, store_volume_blocks, store_data_files}
use xe_build.Header.Content.{
  KeepsCounts, CountsIn, HasCounts, HasCounts-kept, store_counts-HasCounts, IsFinished,
  finish-IsFinished,
}
use xe_build.Svod.Open.{XexInfo, dump_default_xex, opened, Opened, Exit, finished}
use xe_build.Svod.Open.Run.{IsImage, based, Ends}

-- The first hash is a digest, as every other.
Linked-length :
    (sha : List ℕ → Hash) (hash : Hash) (fs : List SvodFile) (first : Hash)
    → ((xs : List ℕ) → length (sha xs) ≡ 20)
    → length hash ≡ 20
    → Linked sha hash fs first
    → length first ≡ 20
Linked-length sha hash [] first digest twenty linked = ap length linked ∙ twenty
Linked-length sha hash (f ∷ fs) first digest twenty (next, linked) =
    Linked-length sha (sha (level1_page f.header)) fs first digest (digest _) linked

IsChain-length :
    (sha : List ℕ → Hash) (fs : List SvodFile) (first : Hash)
    → ((xs : List ℕ) → length (sha xs) ≡ 20)
    → IsChain sha fs first
    → length first ≡ 20
IsChain-length sha [] first digest chain = absurd chain
IsChain-length sha (f ∷ fs) first digest chain =
    Linked-length sha (sha (level1_page f.header)) fs first digest (digest _) chain

-- What a run writes: no header if `main` fails, else one that is finished.
abbrev pub HeaderFile :
    (List ℕ → Hash) → VolumeBlocks → DataFiles → Package → Bool → Option Memory → Type 0
HeaderFile sha v f p ret_val none = ret_val ≡ false
HeaderFile sha v f p ret_val (some h) =
    (ret_val ≡ true) × ((first : Hash) × (p.first_hash ≡ some first) × IsFinished sha v f first h)

abbrev pub Writes : (List ℕ → Hash) → VolumeBlocks → DataFiles → Package → Option Exit → Type 0
Writes sha v f p none = Unit
Writes sha v f p (some x) = HeaderFile sha v f p x.ret_val x.header_file

module _ (alloc : ℕ → Bool) (xex_info : XexInfo) (keeps : KeepsCounts xex_info) where
  dump_default_xex-CountsIn :
      (d : Disc) (s : State) (h : Memory) → CountsIn h (dump_default_xex alloc xex_info d s h)
  unfolding dump_default_xex
  dump_default_xex-CountsIn d s h =
      let bufsz = round_sector s.xex_size in
      let mem = read_iso_data d (set_iso_sector d s.xex_sector) blank 0 bufsz in
      elim (Bool-cases (s.xex_sector == 0 || s.xex_size == 0)) [
        | inl absent ↦ rw absent (λ k is. refl)
        | inr present ↦ elim (Bool-cases (alloc bufsz && mem.success)) [
          | inr unread ↦ rw (present, unread) (λ k is. refl)
          | inl read ↦ elim (Option-cases (xex_info mem.mem s.xex_size h)) [
            | inl e ↦ rw (present, read, e) tt
            | inr f ↦ let (r, e) = f in rw (present, read, e) (keeps mem.mem s.xex_size h r e)
          ]
        ]
      ]

  -- A header that is opened has the counts of the bounds.
  opened-HasCounts :
      (d : Disc) (s : State) (o : Opened)
      → opened alloc xex_info d s prepare_header_file ≡ some o
      → HasCounts
          (calc_data_blocks s.max_sector s.min_sector)
          (calc_data_file_sizes s.max_sector s.min_sector)
          o.header
  unfolding opened
  opened-HasCounts d s o run =
      let v = calc_data_blocks s.max_sector s.min_sector in
      let f = calc_data_file_sizes s.max_sector s.min_sector in
      let h = store_data_files f (store_volume_blocks v prepare_header_file) in
      let kept = dump_default_xex-CountsIn d s h in
      elim (Option-cases (dump_default_xex alloc xex_info d s h)) [
        | inl e ↦
            let stuck : opened alloc xex_info d s prepare_header_file ≡ none =
              rw (e, opened) refl in
            absurd (cc (stuck, run))
        | inr g ↦
            let (r, e) = g in
            let o' : Opened = record {
              ret = r.ret;
              disc = d;
              state = s;
              volume = v;
              sizes = f;
              header = r.header;
            } in
            let done : opened alloc xex_info d s prepare_header_file ≡ some o' =
              rw (e, opened) refl in
            let same = Option.some-injective o' o (sym done ∙ run) in
            let kept' : CountsIn h (some r) = subst (CountsIn h) e kept in
            HasCounts-kept v f h o.header
              (λ k is. sym (ap (λ (p : Opened). p.header k) same) ∙ kept' k is)
              (store_counts-HasCounts v f)
      ]

  module _ (d : Disc) (t : Shape) (image : IsImage alloc d t) (sha : List ℕ → Hash)
      (digest : (xs : List ℕ) → length (sha xs) ≡ 20) where
    finished-HeaderFile :
        (s : State) (p : Package) (run : Option Exit) (o : Opened)
        → Ends alloc xex_info d t image sha run s p
        → opened alloc xex_info (based d) s prepare_header_file ≡ some o
        → let x = finished sha o p in
          HeaderFile sha
            (calc_data_blocks s.max_sector s.min_sector)
            (calc_data_file_sizes s.max_sector s.min_sector)
            p
            x.ret_val
            x.header_file
    finished-HeaderFile s p run o ends e =
        let v = calc_data_blocks s.max_sector s.min_sector in
        let f = calc_data_file_sizes s.max_sector s.min_sector in
        let blocks = blocks_for ((s.max_sector - s.min_sector) / 2 + 1) in
        elim (Bool-cases p.success) [
          | inr failed ↦ rw failed refl
          | inl ok ↦
              let many : 0xcb < blocks = elim (Bool-cases (leb blocks 0xcb)) [
                | inl few ↦ absurd (cc ((ends.converted.single (ground (arith, few))).0, ok))
                | inr more ↦ ground (arith, more)
              ] in
              let (first, stored, chain) = (ends.converted.many many).1 in
              let done =
                finish-IsFinished sha digest v f first o.header
                  (IsChain-length sha p.files first digest chain)
                  (opened-HasCounts (based d) s o e) in
              rw (ok, stored) (refl, (first, refl, done))
        ]

    -- A run that `main_lem` describes writes no header where `main` fails. Otherwise the header is
    -- finished: it is of the kind and the size that `prepareHeaderFile` stores, it has the counts
    -- for the bounds that the scan found, the hash of the first file's header, which is the start
    -- of the chain through the files, and as its content ID the hash of its metadata. This takes a
    -- hash of 20 bytes, and that `getXexInfoData` leaves the counts alone.
    pub main-HeaderFile :
        (s : State) (p : Package) (run : Option Exit)
        → Ends alloc xex_info d t image sha run s p
        → Writes sha
            (calc_data_blocks s.max_sector s.min_sector)
            (calc_data_file_sizes s.max_sector s.min_sector)
            p
            run
    main-HeaderFile s p run ends =
        elim (Option-cases (opened alloc xex_info (based d) s prepare_header_file)) [
          | inl e ↦ rw (ends.exit, e) tt
          | inr g ↦
              let (o, e) = g in
              elim (Bool-cases o.ret) [
                | inl taken ↦ rw (ends.exit, e, taken) (finished-HeaderFile s p run o ends e)
                | inr refused ↦ rw (ends.exit, e, refused) refl
              ]
        ]
