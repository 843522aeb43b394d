-- ===== src/Svod/Package/Chain.antt =====
-- The headers of the files form a chain of hashes, and `isoToSvod` takes one file for a failure.
use xe_build.Base.{
  ℕ, zero, suc, ◌+◌, ◌-◌, ◌/◌, ◌%◌, ◌^◌, ◌≤◌, ◌<◌, ◌≡◌, refl, Bool, true, false, none, some, List,
  [], ◌∷◌, length, arith, ap, ◌∙◌, inl, inr, ◌==◌, ◌!=◌, Bool-cases,
}
use mathlib.Core.Option
use mathlib.Core.Path.{subst, sym}
use xe_build.Svod.Disc.{Memory, Disc, set_iso_sector}
use xe_build.Svod.Writer.{Hash, SvodFile, Outcome, zero_hash, level1_page, write_header_to_file}
use xe_build.Svod.Writer.Blocks.{payload, blocks_for, files_for, FileIs, FilesAre}
use xe_build.Svod.Writer.Body.{Wrote, write_iso_body_lem}
use xe_build.Svod.Package.{
  Package, with_next, fix_headers, fix_iso_headers, package_of, iso_to_svod,
}

-- The files, newest first, carry in each header the hash of the header page of the next newer file,
-- and `first` is that of the oldest. `hash` is that of the file before the list.
abbrev pub Linked : (List ℕ → Hash) → Hash → List SvodFile → Hash → Type 0
Linked sha hash [] first = first ≡ hash
Linked sha hash (f ∷ fs) first =
    (f.header.next ≡ hash) × Linked sha (sha (level1_page f.header)) fs first

-- A whole package: the newest file refers to none.
abbrev pub IsChain : (List ℕ → Hash) → List SvodFile → Hash → Type 0
IsChain sha [] first = ⊥
IsChain sha (f ∷ fs) first = Linked sha (sha (level1_page f.header)) fs first

module _ (sha : List ℕ → Hash) (reopens : ℕ → Bool) (can : (n : ℕ) → reopens n ≡ true) where
  fix_headers_links :
      (hash : Hash) (fs : List SvodFile)
      → let r = fix_headers sha reopens false hash fs in
        Linked sha hash r.files r.hash_info × (r.success ≡ true)
  unfolding fix_headers with_next write_header_to_file
  fix_headers_links hash [] = (refl, refl)
  fix_headers_links hash (f ∷ fs) =
      let f' : SvodFile = record f { header = record (f.header) { next = hash } } in
      let rest = fix_headers_links (sha (level1_page f'.header)) fs in
      rw (can (length fs)) ((refl, rest.0), rest.1)

  length-fix_headers :
      (last : Bool) (hash : Hash) (fs : List SvodFile)
      → length (fix_headers sha reopens last hash fs).files ≡ length fs
  unfolding fix_headers
  length-fix_headers last hash [] = refl
  length-fix_headers last hash (f ∷ fs) =
      rw (can (length fs)) (ap suc (length-fix_headers false _ fs))

  -- The loop changes neither blocks nor hash entries.
  with_next-FileIs :
      (source : Memory) (total : ℕ) (last : Bool) (hash : Hash) (n : ℕ) (f : SvodFile)
      → FileIs sha source total n f
      → FileIs sha source total n (with_next sha reopens last hash f)
  unfolding with_next write_header_to_file
  with_next-FileIs source total true hash n f h = h
  with_next-FileIs source total false hash n f h = record {
    count = h.count;
    blocks = h.blocks;
    unused = h.unused;
  }

  fix_headers-FilesAre :
      (source : Memory) (total : ℕ) (last : Bool) (hash : Hash) (fs : List SvodFile)
      → FilesAre sha source total fs
      → FilesAre sha source total (fix_headers sha reopens last hash fs).files
  unfolding fix_headers
  fix_headers-FilesAre source total last hash [] h = tt
  fix_headers-FilesAre source total last hash (f ∷ fs) h = rw (can (length fs)) (
    subst (λ (n : ℕ). FileIs sha source total n (with_next sha reopens last hash f))
        (sym (length-fix_headers false _ fs))
        (with_next-FileIs source total last hash (length fs) f h.0),
    fix_headers-FilesAre source total false _ fs h.1,
  )

  fix_iso_headers-IsChain :
      (f : SvodFile) (fs : List SvodFile)
      → let r = fix_iso_headers sha reopens (f ∷ fs) in
        IsChain sha r.files r.hash_info × (r.success ≡ true)
  unfolding fix_iso_headers fix_headers with_next
  fix_iso_headers-IsChain f fs =
      let rest = fix_headers_links (sha (level1_page f.header)) fs in
      rw (can (length fs)) (rest.0, rest.1)

-- What a caller gets from `isoToSvod`, for sectors that fill `blocks` blocks: the files hold the
-- payload; up to 0xCB blocks fit one file, and the call then reports failure and stores no hash;
-- with more blocks it reports success, and each header carries the hash of the next file's header,
-- the volume descriptor that of the first.
pub record Converted (sha : List ℕ → Hash) (source : Memory) (total : ℕ) (p : Package)
    : Type 0 where
  pub files : FilesAre sha source total p.files
  pub count : length p.files ≡ files_for (blocks_for total)
  pub single : blocks_for total ≤ 0xcb → (p.success ≡ false) × (p.first_hash ≡ none)
  pub many :
      0xcb < blocks_for total
      → (p.success ≡ true)
        × ((first : Hash) × (p.first_hash ≡ some first) × IsChain sha p.files first)

module _ (sha : List ℕ → Hash) (reopens : ℕ → Bool) (can : (n : ℕ) → reopens n ≡ true) (d : Disc)
    (min_sector total : ℕ) where
  package_many :
      (ret : ℕ) (fs : List SvodFile)
      → length fs ≡ ret + 1
      → (ret != 0) ≡ true
      → FilesAre sha (payload d min_sector) total fs
      → let p = package_of sha reopens (record { ret = ret; files = fs }) in
        FilesAre sha (payload d min_sector) total p.files
        × (length p.files ≡ length fs)
        × (p.success ≡ true)
        × ((first : Hash) × (p.first_hash ≡ some first) × IsChain sha p.files first)
  unfolding package_of fix_iso_headers
  package_many ret [] e more h = absurd (omega arith)
  package_many ret (f ∷ fs) e more h =
      let links = fix_iso_headers-IsChain sha reopens can f fs in
      rw (more, package_of)
        (
          fix_headers-FilesAre sha reopens can (payload d min_sector) total true zero_hash (f ∷ fs)
              h,
          length-fix_headers sha reopens can true zero_hash (f ∷ fs),
          refl,
          (_, rw links.1 refl, links.0),
        )

  package_single :
      (ret : ℕ) (fs : List SvodFile)
      → ret ≡ 0
      → let p = package_of sha reopens (record { ret = ret; files = fs }) in
        (p.files ≡ fs) × (p.success ≡ false) × (p.first_hash ≡ none)
  unfolding package_of
  package_single zero fs e = (refl, refl, refl)
  package_single (suc ret) fs e = absurd (omega arith)

  package_of-Converted :
      (o : Outcome)
      → Wrote sha d min_sector total o
      → 0 < total
      → Converted sha (payload d min_sector) total (package_of sha reopens o)
  package_of-Converted o w pos = elim (Bool-cases (o.ret == 0)) [
    | inl z ↦
        let e : o.ret ≡ 0 = ground (arith, z) in
        let p = package_single o.ret o.files e in
        record {
          files = rw p.0 w.files;
          count = rw p.0 w.count;
          single = λ le. (p.1, p.2);
          many = λ more. absurd (omega (arith, w.last, w.count, e));
        }
    | inr nz ↦
        let more : 0 < o.ret = ground (arith, nz) in
        let p = package_many o.ret o.files (sym w.last) (ground (arith, more)) w.files in
        record {
          files = p.0;
          count = p.1 ∙ w.count;
          single = λ le. absurd (omega (arith, w.last, w.count, more));
          many = λ lt. (p.2, p.3);
        }
  ]

-- With every file creatable and readable again, an even and positive number of sectors in use, and
-- an image that holds the XGD header and the sectors up to `max_sector`, `isoToSvod` ends within as
-- many turns as there are sectors. The files that it leaves hold the payload. If they are more than
-- one it reports success, each header carries the hash of the next file's header, and the volume
-- descriptor that of the first; if there is one file it reports failure and stores no hash.
pub iso_to_svod_lem :
    (sha : List ℕ → Hash) (opens reopens : ℕ → Bool) (d : Disc) (fuel max_sector min_sector : ℕ)
    → ((n : ℕ) → opens n ≡ true)
    → ((n : ℕ) → reopens n ≡ true)
    → max_sector < 2 ^ 32
    → min_sector < max_sector
    → (max_sector - min_sector) % 2 ≡ 0
    → set_iso_sector d 0x20 + 0x1000 ≤ d.size
    → set_iso_sector d max_sector ≤ d.size
    → max_sector - min_sector + 2 ≤ fuel
    → (p : Package) × (iso_to_svod sha opens reopens d fuel max_sector min_sector ≡ some p)
      × Converted sha (payload d min_sector) ((max_sector - min_sector) / 2 + 1) p
unfolding iso_to_svod
iso_to_svod_lem sha opens reopens d fuel max_sector min_sector can can' small less even head tail
      enough =
    let (o, run, w) =
      write_iso_body_lem sha opens d fuel max_sector min_sector can small less even head tail
        enough in
    (
      package_of sha reopens o,
      ap (Option.map (package_of sha reopens)) run,
      package_of-Converted sha reopens can' d min_sector _ o w (omega arith),
    )
