-- ===== src/Svod/Writer/Body.antt =====
-- What `writeIsoBody` leaves behind a whole run.
use xe_build.Base.{
  ℕ, zero, suc, ◌+◌, ◌-◌, ◌*◌, ◌/◌, ◌%◌, ◌^◌, ◌≤◌, ◌<◌, ◌≡◌, refl, inl, inr, Bool, true, some, List,
  length, arith, sub32,
}
use xe_build.Svod.Disc.{Disc, set_iso_sector, read_iso_data}
use xe_build.Svod.Writer.{Hash, State, Outcome, write_loop, first_state, write_iso_body}
use xe_build.Svod.Writer.Blocks.{payload, blocks_for, files_for, FilesAre}
use xe_build.Svod.Writer.Round.{Inv, Finished, turn_lem}

-- The package that a run has to leave: its files in order hold the payload of `total` chunks, and
-- the returned number is that of the last file.
pub record Wrote (sha : List ℕ → Hash) (d : Disc) (min_sector total : ℕ) (o : Outcome)
    : Type 0 where
  pub last : o.ret + 1 ≡ length o.files
  pub count : length o.files ≡ files_for (blocks_for total)
  pub files : FilesAre sha (payload d min_sector) total o.files

module _ (sha : List ℕ → Hash) (opens : ℕ → Bool) (d : Disc) (min_sector total : ℕ)
    (fits : set_iso_sector d min_sector + (2 * total - 2) * 0x800 ≤ d.size)
    (can : (n : ℕ) → opens n ≡ true) where
  loop-Finished :
      (fuel : ℕ) (s : State)
      → Finished sha opens d min_sector total s
      → 0 < fuel
      → (o : Outcome) × (write_loop sha opens d fuel s ≡ some o) × Wrote sha d min_sector total o
  unfolding write_loop
  loop-Finished zero s f pos = absurd (omega arith)
  loop-Finished (suc fuel) s f pos = (
    record { ret = s.cur_file_num; files = s.closed },
    ground (arith, f.remains, f.opened),
    record { last = f.file_num; count = f.count; files = f.files },
  )

  loop_lem :
      (fuel : ℕ) (s : State)
      → Inv sha opens d min_sector total s
      → s.sectors_rem + 1 < fuel
      → (o : Outcome) × (write_loop sha opens d fuel s ≡ some o) × Wrote sha d min_sector total o
  unfolding write_loop
  loop_lem zero s v enough = absurd (omega arith)
  loop_lem (suc fuel) s v enough = elim (turn_lem sha opens d min_sector total s v fits can) [
    | inl (s', e, v', less) ↦
        let (o, run, w) = loop_lem fuel s' v' (omega arith) in
        (o, ground (arith, v.remains, e, run), w)
    | inr (s', e, f) ↦
        let (o, run, w) = loop-Finished fuel s' f (omega arith) in
        (o, ground (arith, v.remains, e, run), w)
  ]

  first_state-Inv :
      (max_sector : ℕ)
      → max_sector < 2 ^ 32
      → min_sector + 2 * total ≡ max_sector + 2
      → 1 < total
      → set_iso_sector d 0x20 + 0x1000 ≤ d.size
      → Inv sha opens d min_sector total (first_state sha opens d max_sector min_sector)
  unfolding first_state read_iso_data payload
  first_state-Inv max_sector small e some_data head = record {
    remains = omega arith;
    opened = refl;
    file_num = refl;
    block_num = refl;
    room = omega arith;
    offset = inl (refl, refl);
    rem = omega arith;
    pos = omega arith;
    bytes = λ k lt. ground arith;
    blocks = tt;
    clear = λ c. refl;
    unused = λ c le. refl;
    files = tt;
  }

first_state_rem :
    (sha : List ℕ → Hash) (opens : ℕ → Bool) (d : Disc) (max_sector min_sector : ℕ)
    → (first_state sha opens d max_sector min_sector).sectors_rem ≡ sub32 max_sector min_sector
unfolding first_state
first_state_rem sha opens d max_sector min_sector = refl

-- With every file creatable, an even and positive number of sectors in use, and an image that
-- holds the XGD header and the sectors up to `max_sector`, `writeIsoBody` ends within as many turns
-- as there are sectors and leaves exactly the package of the payload: the block hashes, the chunk
-- hashes and the data of each file, with zeros in the entries of the hash pages that no block and
-- no chunk uses, the count of files, and the last file's number as its result.
pub write_iso_body_lem :
    (sha : List ℕ → Hash) (opens : ℕ → Bool) (d : Disc) (fuel max_sector min_sector : ℕ)
    → ((n : ℕ) → opens n ≡ true)
    → max_sector < 2 ^ 32
    → min_sector < max_sector
    → (max_sector - min_sector) % 2 ≡ 0
    → set_iso_sector d 0x20 + 0x1000 ≤ d.size
    → set_iso_sector d max_sector ≤ d.size
    → max_sector - min_sector + 2 ≤ fuel
    → (o : Outcome) × (write_iso_body sha opens d fuel max_sector min_sector ≡ some o)
      × Wrote sha d min_sector ((max_sector - min_sector) / 2 + 1) o
unfolding write_iso_body
write_iso_body_lem sha opens d fuel max_sector min_sector can small less even head tail enough =
    let total = (max_sector - min_sector) / 2 + 1 in
    let fits : set_iso_sector d min_sector + (2 * total - 2) * 0x800 ≤ d.size =
      unfold set_iso_sector in omega arith in
    let (o, run, w) =
      loop_lem sha opens d min_sector total fits can fuel
        (first_state sha opens d max_sector min_sector)
        (first_state-Inv sha opens d min_sector total fits can max_sector small (omega arith)
          (omega arith) head)
        (omega (arith, first_state_rem sha opens d max_sector min_sector)) in
    (o, ground (arith, can 0, run), w)
