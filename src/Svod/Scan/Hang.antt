-- ===== src/Svod/Scan/Hang.antt =====
-- A directory whose padding starts at the boundary of a sector.
use xe_build.Base.{
  ℕ, zero, suc, ◌-◌, ◌%◌, ◌^◌, ◌≤◌, ◌<◌, ◌≡◌, ◌∙◌, refl, ap, Bool, true, false, none, arith, ◌==◌,
}
use xe_build.Svod.Disc.{Memory, Disc}
use xe_build.Svod.Scan.{
  State, entry_at, round_sector, is_marker, first_state, read_directory, scan_entries,
  get_max_directory, get_disk_end,
}
use xe_build.Svod.Scan.Tree.{directory_read, IsReadable, scan_padding}

module _ (alloc : ℕ → Bool) (d : Disc) where
  -- The loop of `getMaxDirectory` never ends once it stands on a marker of padding at a multiple of
  -- 0x800 inside the directory, whatever the fuel and whatever was noted before; `size` is a size
  -- of whole sectors below 4 GB.
  pub scan_entries_hangs :
      (fuel size : ℕ) (buf : Memory) (off : ℕ) (s : State)
      → off < size
      → size ≤ 2 ^ 32 - 0x800
      → off % 0x800 ≡ 0
      → is_marker (entry_at buf off) ≡ true
      → scan_entries alloc d fuel size buf off s ≡ none
  scan_entries_hangs zero size buf off s lt small aligned m = unfold scan_entries in refl
  scan_entries_hangs (suc fuel) size buf off s lt small aligned m =
      let same : round_sector off ≡ off = omega arith in
      scan_padding alloc d fuel size buf off s lt m
      ∙ (ap (λ o. scan_entries alloc d fuel size buf o s) same
          ∙ scan_entries_hangs fuel size buf off s lt small aligned m)

  get_max_directory_hangs :
      (fuel sector ent_size : ℕ) (s : State)
      → IsReadable alloc d sector ent_size
      → is_marker (entry_at (directory_read alloc d sector ent_size).mem 0) ≡ true
      → get_max_directory alloc d fuel sector ent_size s ≡ none
  unfolding get_max_directory read_directory
  get_max_directory_hangs fuel sector ent_size s h m =
      let e : (round_sector ent_size == 0) ≡ false = ground (arith, h.0) in
      let never =
        scan_entries_hangs fuel (round_sector ent_size) (directory_read alloc d sector ent_size).mem
          0 s (omega (arith, h.0)) (omega arith) refl m in
      rw (e, h.1, never) refl

  -- So `getDiskEnd` does not return for a readable root directory that starts with padding.
  get_disk_end_hangs :
      (fuel root_sector root_size : ℕ)
      → IsReadable alloc d root_sector root_size
      → is_marker (entry_at (directory_read alloc d root_sector root_size).mem 0) ≡ true
      → get_disk_end alloc d fuel root_sector root_size ≡ none
  unfolding get_disk_end
  get_disk_end_hangs fuel root_sector root_size h m =
      let never =
        get_max_directory_hangs fuel root_sector root_size
          (first_state alloc d root_sector root_size) h m in
      rw (never, get_disk_end) refl
