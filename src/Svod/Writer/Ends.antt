-- ===== src/Svod/Writer/Ends.antt =====
-- `writeIsoBody` on any input: it ends, and what its result says about the files.
use xe_build.Base.{
  ℕ, zero, suc, ◌+◌, ◌-◌, ◌/◌, ◌≤◌, ◌<◌, ◌≡◌, ◌≢◌, ◌⊎◌, refl, Bool, true, false, Option, some, List,
  [], arith, length, ◌==◌, ◌!=◌, sub32, inl, inr, Bool-cases,
}
use xe_build.Svod.Disc.{Disc, read_iso_data}
use xe_build.Svod.Writer.{
  Hash, State, Outcome, Turn, next_turn, stop, all_files, data_to_read, store_block, roll_over,
  finish, end_turn, turn, write_loop, first_state, write_iso_body,
}

module _ (sha : List ℕ → Hash) (opens : ℕ → Bool) (d : Disc) where
  -- The files so far go up to the one with the current number.
  abbrev Counts : State → Type 0
  Counts s = (length (all_files s) ≡ s.cur_file_num + 1) × (s.sectors_rem ≢ 0 → s.is_open ≡ true)

  -- What a result says: it is 0, or the number of the last file.
  abbrev Numbered : Outcome → Type 0
  Numbered o = (o.ret ≡ 0) ⊎ (o.ret + 1 ≡ length o.files)

  abbrev Turned : ℕ → Turn → Type 0
  Turned rem (stop o) = Numbered o
  Turned rem (next_turn s') = Counts s' × (s'.cur_off ≡ 0) × (s'.sectors_rem < rem)

  end_turn-Turned :
      (s : State) (rem : ℕ)
      → length s.closed ≡ s.cur_file_num
      → s.is_open ≡ true
      → s.cur_off ≡ 0
      → s.sectors_rem < rem
      → Turned rem (end_turn sha opens d s)
  unfolding end_turn roll_over finish
  end_turn-Turned s rem count opened off less =
      let last : s.sectors_rem ≡ 0 → Turned rem (next_turn (finish sha opens d s)) =
        λ z. ((omega (arith, count), λ ne. absurd (ne z)), off, less) in
      let same : Turned rem (next_turn s) =
        ((ground (arith, count, opened), λ _. opened), off, less) in
      elim (Bool-cases (s.cur_block == 0xcb)) [
        | inl full ↦ elim (Bool-cases (s.sectors_rem != 0)) [
          | inl more ↦ elim (Bool-cases (opens (s.cur_file_num + 1))) [
            | inl can ↦
                simp (full, more, can) ((ground (arith, count, opened), λ _. opened), off, less)
            | inr cannot ↦ simp (full, more, cannot) (inl refl)
          ]
          | inr none_left ↦ simp (full, none_left) (last (ground (arith, none_left)))
        ]
        | inr part ↦ elim (Bool-cases (s.sectors_rem == 0)) [
          | inl z ↦
              let z' : (s.sectors_rem != 0) ≡ false = ground (arith, z) in
              simp (part, z, z') (last (ground (arith, z)))
          | inr more ↦ simp (part, more) same
        ]
      ]

  less_lem :
      (s : State)
      → s.cur_off ≤ 0x1000
      → 0 < s.sectors_rem
      → s.sectors_rem - data_to_read sha opens d s / 0x800 < s.sectors_rem
  unfolding data_to_read
  less_lem s off more = ground arith

  turn-Turned :
      (s : State)
      → Counts s
      → s.cur_off ≤ 0x1000
      → 0 < s.sectors_rem
      → Turned s.sectors_rem (turn sha opens d s)
  unfolding turn store_block
  turn-Turned s count off more =
      let len = data_to_read sha opens d s in
      let r = read_iso_data d s.pos s.datablock.bytes s.cur_off len in
      elim (Bool-cases r.success) [
        | inr e ↦ simp e (inl refl)
        | inl e ↦ simp e (
            end_turn-Turned (store_block sha opens d s (len / 0x800) r) s.sectors_rem
              (ground (arith, count.0, count.1)) (count.1 (ground (arith, more))) refl
              (less_lem s off more))
      ]

  write_loop_ends :
      (fuel : ℕ) (s : State)
      → Counts s
      → s.cur_off ≤ 0x1000
      → s.sectors_rem < fuel
      → (o : Outcome) × (write_loop sha opens d fuel s ≡ some o) × Numbered o
  unfolding write_loop
  write_loop_ends zero s count off enough = absurd (omega arith)
  write_loop_ends (suc fuel) s count off enough = elim (Bool-cases (s.sectors_rem == 0)) [
    | inl z ↦
        simp z
          (record { ret = s.cur_file_num; files = all_files s }, refl, inr (omega (arith, count.0)))
    | inr more ↦ simp more (
        go (λ s' c o lt. write_loop_ends fuel s' c o lt) (turn sha opens d s)
          (turn-Turned s count off (ground (arith, more))))
  ]
    where
      go :
          ((s' : State)
            → Counts s'
            → s'.cur_off ≤ 0x1000
            → s'.sectors_rem < fuel
            → (o : Outcome) × (write_loop sha opens d fuel s' ≡ some o) × Numbered o)
          → (t : Turn) → Turned s.sectors_rem t
          → (o : Outcome) × ((elim t as (λ _. Option Outcome) [
            | next_turn s' ↦ write_loop sha opens d fuel s'
            | stop o ↦ some o
          ])
              ≡ some o)
            × Numbered o
      go again (stop o) h = (o, refl, h)
      go again (next_turn s') h = again s' h.0 (omega (arith, h.1)) (omega (arith, h.2, enough))

-- `writeIsoBody` ends on every image and for all sector numbers, in at most one turn for each
-- sector, whichever files can be created and whichever reads succeed; what it returns is 0 or the
-- number of the last of the files that it leaves.
pub write_iso_body_ends :
    (sha : List ℕ → Hash) (opens : ℕ → Bool) (d : Disc) (fuel max_sector min_sector : ℕ)
    → sub32 max_sector min_sector < fuel
    → (o : Outcome) × (write_iso_body sha opens d fuel max_sector min_sector ≡ some o)
      × ((o.ret ≡ 0) ⊎ (o.ret + 1 ≡ length o.files))
unfolding write_iso_body first_state
write_iso_body_ends sha opens d fuel max_sector min_sector enough = elim (Bool-cases (opens 0)) [
  | inr e ↦ rw e (record { ret = 0; files = [] }, refl, inl refl)
  | inl e ↦ rw e (
      write_loop_ends sha opens d fuel (first_state sha opens d max_sector min_sector)
        (refl, λ _. refl) (omega arith) enough)
]
