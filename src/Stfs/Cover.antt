-- ===== src/Stfs/Cover.antt =====
-- What part of a container `conCheckHashes` is known to have compared.
use mathlib.Core.Option
use xe_build.Base.{
  ℕ, zero, suc, ◌+◌, ◌*◌, ◌≤◌, ◌<◌, ◌^◌, ◌≡◌, ◌⊎◌, refl, ap, sym, ◌∙◌, true, false, Option, some,
  List, [], ◌∷◌, ◌++◌, arith, leb, u32, sub32, if◌then◌else◌, inl, inr, Bool-cases,
}
use xe_build.Bytes.{check_zeros}
use xe_build.Svod.Disc.{Memory, slice}
use xe_build.Stfs.{
  Pass, corrupt, pass, State, Turn, mismatch, next_turn, Outcome, same_hash, entry_hash, page_hash,
  check_table, next_table, turn, check_loop, con_check_hashes, first_state,
}
use xe_build.Stfs.Sound.{same_hash_sound}

module _ (sha : List ℕ → List ℕ) (con : Memory) where
  -- The entries from `i` on against the blocks from `offset` on: each of them up to the first entry
  -- of zeros is the hash of its block.
  pub IsCovered : ℕ → ℕ → ℕ → ℕ → Type 0
  IsCovered left i table offset =
      (k : ℕ)
      → k < left
      → ((j : ℕ) × (j ≤ k) × (check_zeros (slice con (table + (i + j) * 0x18) 0x18) 0 0x18 ≡ true))
        ⊎ (sha (slice con (offset + k * 0x1000) 0x1000) ≡ slice con (table + (i + k) * 0x18) 0x14)

  abbrev PassCovers : ℕ → ℕ → ℕ → ℕ → Pass → Type 0
  PassCovers left i table offset corrupt = Unit
  PassCovers left i table offset (pass o bs m) = IsCovered left i table offset

  IsCovered-suc :
      (left i table offset : ℕ)
      → sha (slice con offset 0x1000) ≡ slice con (table + i * 0x18) 0x14
      → IsCovered left (i + 1) table (offset + 0x1000)
      → IsCovered (suc left) i table offset
  unfolding IsCovered
  IsCovered-suc left i table offset h rest zero lt =
      let page : offset + 0 * 0x1000 ≡ offset = omega arith in
      let entry : table + i * 0x18 ≡ table + (i + 0) * 0x18 = omega arith in
      inr (ap (λ o. sha (slice con o 0x1000)) page ∙ (h ∙ ap (λ t. slice con t 0x14) entry))
  IsCovered-suc left i table offset h rest (suc k) lt = elim (rest k (omega arith)) [
    | inl (j, le, z) ↦
        let entry : table + (i + (j + 1)) * 0x18 ≡ table + (i + 1 + j) * 0x18 = omega arith in
        inl (j + 1, omega arith, ap (λ t. check_zeros (slice con t 0x18) 0 0x18) entry ∙ z)
    | inr m ↦
        let page : offset + suc k * 0x1000 ≡ offset + 0x1000 + k * 0x1000 = omega arith in
        let entry : table + (i + 1 + k) * 0x18 ≡ table + (i + suc k) * 0x18 = omega arith in
        inr (ap (λ o. sha (slice con o 0x1000)) page ∙ (m ∙ ap (λ t. slice con t 0x14) entry))
  ]

  PassCovers-suc :
      (left i table offset : ℕ) (p : Pass)
      → offset + 0x1000 < 2 ^ 32
      → sha (slice con offset 0x1000) ≡ slice con (table + i * 0x18) 0x14
      → PassCovers left (i + 1) table (u32 (offset + 0x1000)) p
      → PassCovers (suc left) i table offset p
  PassCovers-suc left i table offset corrupt small h c = tt
  PassCovers-suc left i table offset (pass o bs m) small h c =
      let same : u32 (offset + 0x1000) ≡ offset + 0x1000 = omega arith in
      IsCovered-suc left i table offset h (rw (sym same) c)

  check_table_covers :
      (left i table offset : ℕ) (blocks : List ℕ)
      → offset + left * 0x1000 < 2 ^ 32
      → PassCovers left i table offset (check_table sha con left i table offset blocks)
  unfolding check_table IsCovered
  check_table_covers zero i table offset blocks small = λ k lt. absurd (omega arith)
  check_table_covers (suc left) i table offset blocks small =
      elim (Bool-cases (check_zeros (slice con (table + i * 0x18) 0x18) 0 0x18)) [
        | inl z ↦
            let entry : table + (i + 0) * 0x18 ≡ table + i * 0x18 = omega arith in
            rw z (λ k lt.
              inl (0, omega arith, ap (λ t. check_zeros (slice con t 0x18) 0 0x18) entry ∙ z))
        | inr z ↦
            elim (Bool-cases (same_hash (page_hash sha con offset) (entry_hash sha con table i))) [
              | inr m ↦ rw (z, m) tt
              | inl m ↦
                  rw (z, m)
                    (PassCovers-suc left i table offset _ (omega arith) (same_hash_sound _ _ m) (
                      check_table_covers left (i + 1) table (u32 (offset + 0x1000))
                        (blocks ++ (offset ∷ [])) (omega arith)))
            ]
      ]

  -- What is known of a run: it is not accepted, or the first table covers its blocks.
  abbrev Known : ℕ → Outcome → Type 0
  Known start o = o.ok ≡ true → IsCovered 0xaa 0 start (start + 0x1000)

  after_pass :
      (start len fuel : ℕ) (s : State) (p : Pass) (o : Outcome)
      → PassCovers 0xaa 0 start (start + 0x1000) p
      → (elim (elim p as (λ _. Turn) [
        | corrupt ↦ mismatch
        | pass offset blocks more ↦
            if leb len (u32 (offset + 0x2000))
            then next_turn
                (record s { curr_offset = offset; block_info = blocks; cont_process = false })
            else next_table sha con start
                (record s { block_info = blocks; cont_process = more })
                offset
      ])
          as (λ _. Option Outcome) [
            | mismatch ↦ some (record { ok = false; block_info = s.block_info })
            | next_turn s' ↦
                let rest = check_loop sha con start len fuel s' in
                if s'.cont_process
                then rest
                else some (record { ok = true; block_info = s'.block_info })
          ])
        ≡ some o
      → Known start o
  after_pass start len fuel s corrupt o c run good =
      let same = Option.some-injective (record { ok = false; block_info = s.block_info }) o run in
      absurd (ground (arith, ap (λ (r : Outcome). r.ok) same, good))
  after_pass start len fuel s (pass offset blocks more) o c run good = c

  PassCovers-move :
      (left i table a b : ℕ) (p : Pass)
      → a ≡ b
      → PassCovers left i table a p
      → PassCovers left i table b p
  PassCovers-move left i table a b p e c = rw (sym e) c

  check_loop_covers :
      (start len fuel : ℕ) (o : Outcome)
      → start + 0x1000 + 0xaa * 0x1000 < 2 ^ 32
      → check_loop sha con start len fuel (first_state sha con start) ≡ some o
      → Known start o
  unfolding check_loop turn
  check_loop_covers start len zero o small run good = absurd (ground (arith, run))
  check_loop_covers start len (suc fuel) o small run good =
      let same : u32 (start + 0x1000) ≡ start + 0x1000 = omega arith in
      after_pass start len fuel (first_state sha con start) _ o
        (PassCovers-move 0xaa 0 start (u32 (start + 0x1000)) (start + 0x1000) _ same
          (check_table_covers 0xaa 0 start (u32 (start + 0x1000)) [] (omega arith)))
        run good

  -- In a container that `conCheckHashes` accepts, every block behind the first hash table up to the
  -- table's first entry of zeros has the hash that its own entry holds, however long the run was;
  -- the first 0xAA blocks must lie below 4 GB.
  pub con_check_hashes_covers :
      (fuel start len : ℕ) (o : Outcome)
      → start + 0x1000 + 0xaa * 0x1000 < 2 ^ 32
      → con_check_hashes sha con fuel start len ≡ some o
      → o.ok ≡ true
      → IsCovered 0xaa 0 start (start + 0x1000)
  unfolding con_check_hashes
  con_check_hashes_covers fuel start len o small run good =
      elim (Bool-cases
        (same_hash (slice con 0x32c 0x14) (sha (slice con 0x344 (sub32 start 0x344))))) [
          | inl e ↦
              let opened : check_loop sha con start len fuel (first_state sha con start)
                  ≡ con_check_hashes sha con fuel start len =
                rw e refl in
              check_loop_covers start len fuel o small (opened ∙ run) good
          | inr e ↦
              let refused : some (record { ok = false; block_info = [] })
                  ≡ con_check_hashes sha con fuel start len =
                rw e refl in
              let same =
                Option.some-injective (record { ok = false; block_info = [] }) o (refused ∙ run) in
              absurd (ground (arith, ap (λ (r : Outcome). r.ok) same, good))
        ]
