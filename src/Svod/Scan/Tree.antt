-- ===== src/Svod/Scan/Tree.antt =====
-- The scan of a disc whose directories form a finite tree.
use xe_build.Base.{
  ℕ, zero, suc, ◌+◌, ◌≤◌, ◌<◌, ◌≡◌, ◌≢◌, ◌⊎◌, refl, sym, ap, ◌∙◌, Bool, true, false, ◌&&◌, some,
  List, [], ◌∷◌, ◌++◌, arith, ltb, leb, ◌==◌, ◌!=◌, if◌then◌else◌, u32, inl, inr, Bool-cases,
}
use xe_build.Svod.Disc.{Memory, Disc, Read, set_iso_sector, read_iso_data}
use xe_build.Svod.Scan.{
  State, Entry, Scanned, entry_at, round_sector, entry_step, is_marker, is_directory, note_extent,
  note_file, blank, read_directory, scan_entries, get_max_directory,
}

-- An entry, and not padding, whose name fits `temOutName`.
abbrev pub IsEntry : Entry → Type 0
IsEntry e = (is_marker e ≡ false) × (e.name_sz ≤ 128)

-- The shape of a directory's entries from some offset on: padding, a file or an empty directory, a
-- directory that cannot be read, and a directory with its own entries.
pub data Shape : Type 0 where
  end : Shape
  padding : Shape → Shape
  leaf : Shape → Shape
  lost : Shape → Shape
  sub : Shape → Shape → Shape

-- Fuel that is enough for a shape.
unfoldable pub weight : Shape → ℕ
weight end = 1
weight (padding t) = suc (weight t)
weight (leaf t) = suc (weight t)
weight (lost t) = suc (weight t)
weight (sub c t) = suc (weight c + weight t)

-- What an entry changes, and all entries of a list in their order.
unfoldable pub note_entry : Entry → State → State
note_entry e s = if is_directory e then note_extent e s else note_file e (note_extent e s)

unfoldable pub note_all : List Entry → State → State
note_all [] s = s
note_all (e ∷ es) s = note_all es (note_entry e s)

note_all-append :
    (xs ys : List Entry) (s : State) → note_all (xs ++ ys) s ≡ note_all ys (note_all xs s)
unfolding note_all
note_all-append [] ys s = refl
note_all-append (e ∷ xs) ys s = note_all-append xs ys (note_entry e s)

module _ (alloc : ℕ → Bool) (d : Disc) where
  abbrev pub directory_read : ℕ → ℕ → Read
  directory_read sector ent_size =
      read_iso_data d (set_iso_sector d sector) blank 0 (round_sector ent_size)

  abbrev pub IsReadable : ℕ → ℕ → Type 0
  IsReadable sector ent_size =
      (round_sector ent_size ≢ 0)
      × (alloc (round_sector ent_size) && (directory_read sector ent_size).success ≡ true)

  abbrev pub IsLost : ℕ → ℕ → Type 0
  IsLost sector ent_size =
      (round_sector ent_size ≡ 0)
      ⊎ (alloc (round_sector ent_size) && (directory_read sector ent_size).success ≡ false)

  -- The entries from `off` on have the shape.
  unfoldable pub Holds : Shape → ℕ → Memory → ℕ → Type 0
  Holds end size buf off = size ≤ off
  Holds (padding t) size buf off =
      (off < size) × (is_marker (entry_at buf off) ≡ true) × Holds t size buf (round_sector off)
  Holds (leaf t) size buf off =
      (off < size)
      × IsEntry (entry_at buf off)
      × ((is_directory (entry_at buf off) ≡ false) ⊎ ((entry_at buf off).size ≡ 0))
      × Holds t size buf (u32 (off + entry_step (entry_at buf off)))
  Holds (lost t) size buf off =
      (off < size)
      × IsEntry (entry_at buf off)
      × (is_directory (entry_at buf off) ≡ true)
      × ((entry_at buf off).size ≢ 0)
      × IsLost (entry_at buf off).sector (entry_at buf off).size
      × Holds t size buf (u32 (off + entry_step (entry_at buf off)))
  Holds (sub c t) size buf off =
      (off < size)
      × IsEntry (entry_at buf off)
      × (is_directory (entry_at buf off) ≡ true)
      × ((entry_at buf off).size ≢ 0)
      × IsReadable (entry_at buf off).sector (entry_at buf off).size
      × Holds c (round_sector (entry_at buf off).size)
          (directory_read (entry_at buf off).sector (entry_at buf off).size).mem 0
      × Holds t size buf (u32 (off + entry_step (entry_at buf off)))

  -- All entries below, in the order of the disc: a directory stands before its own entries.
  unfoldable pub entries : Shape → Memory → ℕ → List Entry
  entries end buf off = []
  entries (padding t) buf off = entries t buf (round_sector off)
  entries (leaf t) buf off =
      entry_at buf off ∷ entries t buf (u32 (off + entry_step (entry_at buf off)))
  entries (lost t) buf off =
      entry_at buf off ∷ entries t buf (u32 (off + entry_step (entry_at buf off)))
  entries (sub c t) buf off =
      entry_at buf off
      ∷ (entries c (directory_read (entry_at buf off).sector (entry_at buf off).size).mem 0
          ++ entries t buf (u32 (off + entry_step (entry_at buf off))))

  -- The rounds of the loop, by the kind of entry at `off`.
  scan_end :
      (fuel size : ℕ) (buf : Memory) (off : ℕ) (s : State)
      → size ≤ off
      → scan_entries alloc d (suc fuel) size buf off s ≡ some s
  unfolding scan_entries
  scan_end fuel size buf off s le =
      let e : ltb off size ≡ false = ground arith in rw (e, scan_entries) refl

  pub scan_padding :
      (fuel size : ℕ) (buf : Memory) (off : ℕ) (s : State)
      → off < size
      → is_marker (entry_at buf off) ≡ true
      → scan_entries alloc d (suc fuel) size buf off s
        ≡ scan_entries alloc d fuel size buf (round_sector off) s
  unfolding scan_entries
  scan_padding fuel size buf off s lt m =
      let e : ltb off size ≡ true = ground arith in rw (e, m, scan_entries) refl

  scan_leaf :
      (fuel size : ℕ) (buf : Memory) (off : ℕ) (s : State)
      → off < size
      → IsEntry (entry_at buf off)
      → (is_directory (entry_at buf off) ≡ false) ⊎ ((entry_at buf off).size ≡ 0)
      → scan_entries alloc d (suc fuel) size buf off s
        ≡ scan_entries alloc d fuel size buf
            (u32 (off + entry_step (entry_at buf off)))
            (note_entry (entry_at buf off) s)
  unfolding scan_entries note_entry
  scan_leaf fuel size buf off s lt (m, short) k =
      let fits : leb (entry_at buf off).name_sz 128 ≡ true = ground (arith, short) in
      let e : ltb off size ≡ true = ground arith in
      elim (Bool-cases (is_directory (entry_at buf off))) [
        | inr file ↦ rw (e, m, fits, file, scan_entries) refl
        | inl dir ↦
            let z : ((entry_at buf off).size != 0) ≡ false = ground (arith, dir, k) in
            rw (e, m, fits, dir, z, scan_entries) refl
      ]

  scan_directory :
      (fuel size : ℕ) (buf : Memory) (off : ℕ) (s : State) (r : Scanned)
      → off < size
      → IsEntry (entry_at buf off)
      → is_directory (entry_at buf off) ≡ true
      → (entry_at buf off).size ≢ 0
      → get_max_directory alloc d fuel
          (entry_at buf off).sector
          (entry_at buf off).size
          (note_entry (entry_at buf off) s)
        ≡ some r
      → scan_entries alloc d (suc fuel) size buf off s
        ≡ scan_entries alloc d fuel size buf (u32 (off + entry_step (entry_at buf off))) r.state
  unfolding scan_entries note_entry get_max_directory
  scan_directory fuel size buf off s r lt (m, short) dir ne run =
      let fits : leb (entry_at buf off).name_sz 128 ≡ true = ground (arith, short) in
      let e : ltb off size ≡ true = ground arith in
      let nz : ((entry_at buf off).size != 0) ≡ true = ground arith in
      let same : read_directory alloc d (scan_entries alloc d fuel) (entry_at buf off).sector
            (entry_at buf off).size (note_extent (entry_at buf off) s)
          ≡ some r =
        simp dir at run in
      rw (e, m, fits, dir, nz, same, scan_entries) refl

  get_max_directory_lost :
      (fuel sector ent_size : ℕ) (s : State)
      → IsLost sector ent_size
      → (r : Scanned) × (get_max_directory alloc d fuel sector ent_size s ≡ some r) × (r.state ≡ s)
  unfolding get_max_directory read_directory
  get_max_directory_lost fuel sector ent_size s (inl z) =
      let e : (round_sector ent_size == 0) ≡ true = ground arith in
      rw e (record { ok = true; state = s }, refl, refl)
  get_max_directory_lost fuel sector ent_size s (inr f) =
      elim (Bool-cases (round_sector ent_size == 0)) [
        | inl e ↦ rw e (record { ok = true; state = s }, refl, refl)
        | inr e ↦ rw (e, f) (record { ok = false; state = s }, refl, refl)
      ]

  pub get_max_directory_readable :
      (fuel sector ent_size : ℕ) (s s' : State)
      → IsReadable sector ent_size
      → scan_entries alloc d fuel (round_sector ent_size) (directory_read sector ent_size).mem 0 s
        ≡ some s'
      → get_max_directory alloc d fuel sector ent_size s ≡ some (record { ok = true; state = s' })
  unfolding get_max_directory read_directory
  get_max_directory_readable fuel sector ent_size s s' h run =
      let e : (round_sector ent_size == 0) ≡ false = ground (arith, h.0) in rw (e, h.1, run) refl

  -- A directory tree of the given shape, with names of 128 bytes at most, is scanned with the fuel
  -- that its shape asks for, and every entry is noted in the order of the disc.
  pub scan_tree :
      (t : Shape) (fuel size : ℕ) (buf : Memory) (off : ℕ) (s : State)
      → Holds t size buf off
      → weight t ≤ fuel
      → scan_entries alloc d fuel size buf off s ≡ some (note_all (entries t buf off) s)
  unfolding weight Holds entries note_all
  scan_tree end zero size buf off s h enough = absurd (omega arith)
  scan_tree end (suc fuel) size buf off s h enough = scan_end fuel size buf off s h
  scan_tree (padding t) zero size buf off s h enough = absurd (omega arith)
  scan_tree (padding t) (suc fuel) size buf off s h enough =
      scan_padding fuel size buf off s h.0 h.1
      ∙ scan_tree t fuel size buf (round_sector off) s h.2 (omega arith)
  scan_tree (leaf t) zero size buf off s h enough = absurd (omega arith)
  scan_tree (leaf t) (suc fuel) size buf off s h enough =
      scan_leaf fuel size buf off s h.0 h.1 h.2
      ∙ scan_tree t fuel size buf (u32 (off + entry_step (entry_at buf off)))
          (note_entry (entry_at buf off) s) h.3 (omega arith)
  scan_tree (lost t) zero size buf off s h enough = absurd (omega arith)
  scan_tree (lost t) (suc fuel) size buf off s h enough =
      let (r, run, same) =
        get_max_directory_lost fuel (entry_at buf off).sector (entry_at buf off).size
          (note_entry (entry_at buf off) s) h.4 in
      scan_directory fuel size buf off s r h.0 h.1 h.2 h.3 run
      ∙ (ap (scan_entries alloc d fuel size buf (u32 (off + entry_step (entry_at buf off)))) same
          ∙ scan_tree t fuel size buf (u32 (off + entry_step (entry_at buf off)))
              (note_entry (entry_at buf off) s) h.5 (omega arith))
  scan_tree (sub c t) zero size buf off s h enough = absurd (omega arith)
  scan_tree (sub c t) (suc fuel) size buf off s h enough =
      let e = entry_at buf off in
      let below = entries c (directory_read e.sector e.size).mem 0 in
      let behind = entries t buf (u32 (off + entry_step e)) in
      let run =
        get_max_directory_readable fuel e.sector e.size (note_entry e s)
          (note_all below (note_entry e s)) h.4
          (scan_tree c fuel (round_sector e.size) (directory_read e.sector e.size).mem 0
            (note_entry e s) h.5 (omega arith)) in
      scan_directory fuel size buf off s
        (record { ok = true; state = note_all below (note_entry e s) }) h.0 h.1 h.2 h.3 run
      ∙ (scan_tree t fuel size buf (u32 (off + entry_step e)) (note_all below (note_entry e s)) h.6
            (omega arith)
          ∙ ap some (sym (note_all-append below behind (note_entry e s))))
