-- ===== src/Svod/Scan/Bounds.antt =====
-- What the bounds say that `getDiskEnd` leaves.
use xe_build.Base.{
  ℕ, ◌+◌, ◌-◌, ◌%◌, ◌^◌, ◌≤◌, ◌<◌, ◌≡◌, refl, Bool, true, some, List, [], ◌∷◌, arith, All, All-map,
  u32, clear_bits,
}
use xe_build.Svod.Disc.{Disc}
use xe_build.Svod.Scan.{
  State, Entry, round_sector, sector_count, note_extent, note_file, first_state, get_disk_end,
}
use xe_build.Svod.Scan.Tree.{
  Shape, weight, note_entry, note_all, Holds, entries, directory_read, IsReadable, scan_tree,
  get_max_directory_readable,
}

-- The sectors of an entry end below 2^32, and they lie within the bounds.
abbrev pub IsSmall : Entry → Type 0
IsSmall e = e.sector + sector_count e < 2 ^ 32 - 1

abbrev pub IsWithin : State → Entry → Type 0
IsWithin s e = (s.min_sector ≤ e.sector) × (e.sector + sector_count e ≤ s.max_sector)

-- What one entry does to the bounds: it comes within them, and they move no further than it asks.
note_entry_bounds :
    (e : Entry) (s : State)
    → IsSmall e
    → IsWithin (note_entry e s) e
      × (s.max_sector ≤ (note_entry e s).max_sector)
      × ((note_entry e s).min_sector ≤ s.min_sector)
unfolding note_entry note_extent note_file
note_entry_bounds e s small = ground arith

note_entry_least :
    (e : Entry) (s : State) (b c : ℕ)
    → IsSmall e
    → s.max_sector ≤ b
    → e.sector + sector_count e ≤ b
    → c ≤ s.min_sector
    → c ≤ e.sector
    → ((note_entry e s).max_sector ≤ b) × (c ≤ (note_entry e s).min_sector)
unfolding note_entry note_extent note_file
note_entry_least e s b c small le₁ le₂ le₃ le₄ = ground arith

-- The same for a list of entries.
note_all_grow :
    (es : List Entry) (s : State)
    → All IsSmall es
    → (s.max_sector ≤ (note_all es s).max_sector) × ((note_all es s).min_sector ≤ s.min_sector)
unfolding note_all
note_all_grow [] s small = (omega arith, omega arith)
note_all_grow (e ∷ es) s small =
    let here = note_entry_bounds e s small.0 in
    let rest = note_all_grow es (note_entry e s) small.1 in
    (omega (arith, here.1, rest.0), omega (arith, here.2, rest.1))

note_all-IsWithin :
    (es : List Entry) (s : State) → All IsSmall es → All (IsWithin (note_all es s)) es
unfolding note_all
note_all-IsWithin [] s small = tt
note_all-IsWithin (e ∷ es) s small =
    let here = note_entry_bounds e s small.0 in
    let rest = note_all_grow es (note_entry e s) small.1 in
    (
      (omega (arith, here.0, rest.1), omega (arith, here.0, rest.0)),
      note_all-IsWithin es (note_entry e s) small.1,
    )

note_all_least :
    (es : List Entry) (s : State) (b c : ℕ)
    → All IsSmall es
    → s.max_sector ≤ b
    → c ≤ s.min_sector
    → All (λ e. (e.sector + sector_count e ≤ b) × (c ≤ e.sector)) es
    → ((note_all es s).max_sector ≤ b) × (c ≤ (note_all es s).min_sector)
unfolding note_all
note_all_least [] s b c small le₁ le₂ h = (le₁, le₂)
note_all_least (e ∷ es) s b c small le₁ le₂ h =
    let here = note_entry_least e s b c small.0 le₁ h.0.0 le₂ h.0.1 in
    note_all_least es (note_entry e s) b c small.1 here.0 here.1 h.1

-- Bounds that hold the root directory and every entry, in whole pairs of sectors, and no more: any
-- such bounds in whole pairs lie outside them.
pub record IsTight (root_sector root_size : ℕ) (es : List Entry) (s : State) : Type 0 where
  pub low_even : s.min_sector % 2 ≡ 0
  pub high_even : s.max_sector % 2 ≡ 0
  pub root_low : s.min_sector ≤ root_sector
  pub root_high : root_sector + round_sector root_size ≤ s.max_sector
  pub floor : 0x108 ≤ s.max_sector
  pub within : All (IsWithin s) es
  pub least :
      (b c : ℕ)
      → b % 2 ≡ 0
      → c % 2 ≡ 0
      → 0x108 ≤ b
      → root_sector + round_sector root_size ≤ b
      → c ≤ root_sector
      → All (λ e. (e.sector + sector_count e ≤ b) × (c ≤ e.sector)) es
      → (s.max_sector ≤ b) × (c ≤ s.min_sector)

-- For a root directory that can be read and is the root of a finite tree, with names of 128 bytes
-- at most, as the tool's buffer for a name has, and sectors that stay
-- below 2^32 - 1, `getDiskEnd` succeeds with the fuel that the tree asks for. The two bounds that
-- it leaves are even, hold every entry of the tree, the first 0x108 sectors and, for the end, as
-- many sectors behind the root directory's as that has bytes; they are the tightest such bounds.
pub get_disk_end_lem :
    (alloc : ℕ → Bool) (d : Disc) (fuel root_sector root_size : ℕ) (t : Shape)
    → IsReadable alloc d root_sector root_size
    → Holds alloc d t (round_sector root_size) (directory_read alloc d root_sector root_size).mem 0
    → weight t ≤ fuel
    → root_sector + round_sector root_size < 2 ^ 32 - 1
    → All IsSmall (entries alloc d t (directory_read alloc d root_sector root_size).mem 0)
    → (s : State) × (get_disk_end alloc d fuel root_sector root_size
        ≡ some (record { ok = true; state = s }))
      × IsTight root_sector root_size
          (entries alloc d t (directory_read alloc d root_sector root_size).mem 0)
          s
unfolding get_disk_end
get_disk_end_lem alloc d fuel root_sector root_size t readable holds enough small_root small =
    let es = entries alloc d t (directory_read alloc d root_sector root_size).mem 0 in
    let s₀ = first_state alloc d root_sector root_size in
    let s₁ = note_all es s₀ in
    let s₂ : State = record s₁ {
      min_sector = clear_bits s₁.min_sector 1;
      max_sector = clear_bits (u32 (s₁.max_sector + 1)) 1;
    } in
    let run = get_max_directory_readable alloc d fuel root_sector root_size s₀ s₁ readable (
      scan_tree alloc d t fuel (round_sector root_size)
        (directory_read alloc d root_sector root_size).mem 0 s₀ holds enough) in
    let begin : (0x108 ≤ s₀.max_sector)
        × (root_sector + round_sector root_size ≤ s₀.max_sector)
        × (s₀.max_sector ≤ 2 ^ 32 - 2) =
      (ground arith, ground (arith, small_root), ground (arith, small_root)) in
    let grow = note_all_grow es s₀ small in
    let top =
      note_all_least es s₀ (2 ^ 32 - 2) 0 small begin.2 (omega arith)
        (All-map (λ e h. (omega arith, omega arith)) es small) in
    let wider : s₁.max_sector ≤ s₂.max_sector = omega (arith, top.0) in
    (
      s₂,
      rw (run, get_disk_end) refl,
      record {
        low_even = omega arith;
        high_even = omega arith;
        root_low = omega (arith, grow.1);
        root_high = omega (arith, grow.0, begin.1, wider);
        floor = omega (arith, grow.0, begin.0, wider);
        within =
            All-map (λ e h. (omega (arith, h.0), omega (arith, h.1, wider))) es
              (note_all-IsWithin es s₀ small);
        least = λ b c eb ec floor root low h.
            let start : s₀.max_sector ≤ b = ground (arith, floor, root) in
            let far = note_all_least es s₀ b c small start low h in
            (omega (arith, far.0, eb), omega (arith, far.1, ec));
      },
    )
