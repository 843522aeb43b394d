-- ===== src/Stfs/Sound.antt =====
-- What a container that `conCheckHashes` accepts is known to hold, and that the check ends.
use xe_build.Base.{
  ℕ, zero, suc, ◌+◌, ◌*◌, ◌/◌, ◌^◌, ◌≤◌, ◌<◌, ◌≡◌, ◌↔◌, refl, sym, ◌∙◌, true, false, Option, none,
  some, List, [], ◌∷◌, ◌++◌, arith, leb, u32, sub32, if◌then◌else◌, ◌==◌, inl, inr, Bool-cases,
}
use xe_build.Bytes.{get_le32, check_zeros}
use xe_build.Svod.Disc.{Memory, slice}
use xe_build.Stfs.{
  Pass, corrupt, pass, State, Turn, mismatch, next_turn, Outcome, same_hash, check_table,
  entry_hash, page_hash, enter_table, next_table, turn, check_loop, con_check_hashes, first_state,
}

pub same_hash_sound : (xs ys : List ℕ) → same_hash xs ys ≡ true → xs ≡ ys
unfolding same_hash
same_hash_sound [] [] e = refl
same_hash_sound [] (b ∷ bs) e = ground arith
same_hash_sound (a ∷ xs) [] e = ground arith
same_hash_sound (a ∷ xs) (b ∷ ys) e = ground (arith, e, same_hash_sound xs ys)

same_hash_self : (xs : List ℕ) → same_hash xs xs ≡ true
unfolding same_hash
same_hash_self [] = refl
same_hash_self (x ∷ xs) = ground (arith, same_hash_self xs)

pub same_hash_iff : (xs ys : List ℕ) → (same_hash xs ys ≡ true) ↔ (xs ≡ ys)
same_hash_iff xs ys = (same_hash_sound xs ys, λ e. rw (sym e) (same_hash_self xs))

module _ (sha : List ℕ → List ℕ) (con : Memory) where
  -- A block whose hash stands in its entry of a hash table: the blocks of a table lie right behind
  -- it, in the order of its entries.
  pub Backed : ℕ → Type 0
  Backed offset =
      (table : ℕ) × (i : ℕ) × (i < 0xaa)
      × (offset ≡ table + (i + 1) * 0x1000)
      × (sha (slice con offset 0x1000) ≡ slice con (table + i * 0x18) 0x14)

  pub AllBacked : List ℕ → Type 0
  unfolding Backed
  AllBacked [] = Unit
  AllBacked (b ∷ bs) = Backed b × AllBacked bs

  AllBacked-append : (bs : List ℕ) (b : ℕ) → AllBacked bs → Backed b → AllBacked (bs ++ (b ∷ []))
  unfolding AllBacked
  AllBacked-append [] b h k = (k, tt)
  AllBacked-append (x ∷ bs) b h k = (h.0, AllBacked-append bs b h.1 k)

  -- What a pass over `left` entries from `offset` on leaves.
  abbrev Passed : ℕ → ℕ → Pass → Type 0
  Passed left offset corrupt = Unit
  Passed left offset (pass offset' blocks more) =
      (offset' ≤ offset + left * 0x1000)
      × (more ≡ true → offset' ≡ offset + left * 0x1000)
      × AllBacked blocks

  Passed-suc :
      (left offset : ℕ) (p : Pass)
      → offset + suc left * 0x1000 < 2 ^ 32
      → Passed left (u32 (offset + 0x1000)) p
      → Passed (suc left) offset p
  Passed-suc left offset corrupt small h = h
  Passed-suc left offset (pass offset' blocks more) small h =
      (omega arith, (λ m. omega (arith, h.1 m)), h.2)

  check_table_lem :
      (left i table offset : ℕ) (blocks : List ℕ)
      → i + left ≡ 0xaa
      → offset + left * 0x1000 < 2 ^ 32
      → offset ≡ table + (i + 1) * 0x1000
      → AllBacked blocks
      → Passed left offset (check_table sha con left i table offset blocks)
  unfolding check_table Backed
  check_table_lem zero i table offset blocks e small here h = (omega arith, (λ m. omega arith), h)
  check_table_lem (suc left) i table offset blocks e small here h =
      elim (Bool-cases (check_zeros (slice con (table + i * 0x18) 0x18) 0 0x18)) [
        | inl z ↦ rw z (omega arith, (λ m. ground arith), h)
        | inr z ↦
            elim (Bool-cases (same_hash (page_hash sha con offset) (entry_hash sha con table i))) [
              | inr m ↦ rw (z, m) tt
              | inl m ↦
                  rw (z, m)
                    (Passed-suc left offset _ small (
                      check_table_lem left (i + 1) table (u32 (offset + 0x1000))
                        (blocks ++ (offset ∷ [])) (omega arith) (omega arith) (omega (arith, here))
                        (AllBacked-append blocks offset h
                          (table, i, omega arith, here, same_hash_sound _ _ m))))
            ]
      ]

  -- The step to the next table from `offset` on.
  abbrev Entered : State → ℕ → Turn → Type 0
  Entered s offset mismatch = Unit
  Entered s offset (next_turn s') =
      (offset + 0x1000 ≤ s'.curr_offset)
      × (s'.curr_offset ≤ offset + 0x2000)
      × (s'.block_info ≡ s.block_info)
      × (s'.cont_process ≡ s.cont_process)
      × (s'.curr_offset ≡ s'.table + 0x1000)

  enter_table_lem :
      (s : State) (from offset : ℕ) (master : Option ℕ)
      → from ≤ offset
      → offset ≤ from + 0x1000
      → offset + 0x1000 < 2 ^ 32
      → Entered s from (enter_table sha con s offset master)
  unfolding enter_table
  enter_table_lem s from offset none lo hi small =
      (omega arith, omega arith, refl, refl, omega arith)
  enter_table_lem s from offset (some m) lo hi small =
      elim (Bool-cases
        (same_hash (page_hash sha con offset) (entry_hash sha con m (s.index + 1)))) [
          | inl e ↦ rw e (omega arith, omega arith, refl, refl, omega arith)
          | inr e ↦ rw e tt
        ]

  next_table_lem :
      (start : ℕ) (s : State) (offset : ℕ)
      → offset + 0x2000 < 2 ^ 32
      → Entered s offset (next_table sha con start s offset)
  unfolding next_table
  next_table_lem start s offset small =
      elim (Bool-cases (get_le32 (slice con (offset + 0x14) 4) 0 == 0)) [
        | inr a ↦
            rw a
              (enter_table_lem s offset offset s.master (omega arith) (omega arith) (omega arith))
        | inl a ↦ elim (Bool-cases (same_hash (slice con 0x381 0x14) (page_hash sha con offset))) [
          | inr b ↦ rw (a, b) tt
          | inl b ↦
              elim (Bool-cases
                (same_hash (page_hash sha con start) (entry_hash sha con offset 0))) [
                  | inr c ↦ rw (a, b, c) tt
                  | inl c ↦
                      rw (a, b, c)
                        (enter_table_lem s offset (u32 (offset + 0x1000)) (some offset)
                          (omega arith) (omega arith) (omega arith))
                ]
        ]
      ]

  -- One turn of the `while` loop.
  abbrev Turned : State → ℕ → Turn → Type 0
  Turned s len mismatch = Unit
  Turned s len (next_turn s') =
      AllBacked s'.block_info
      × (s'.cont_process ≡ true
          → (s.curr_offset + 0xab000 ≤ s'.curr_offset)
            × (s'.curr_offset ≤ len)
            × (s'.curr_offset ≡ s'.table + 0x1000))

  pass_lem :
      (start len : ℕ) (s : State) (p : Pass)
      → len < 2 ^ 31
      → s.curr_offset ≤ 2 ^ 31 + 0x1000
      → Passed 0xaa s.curr_offset p
      → Turned s len (elim p as (λ _. Turn) [
        | corrupt ↦ mismatch
        | pass offset blocks more ↦
            if leb len (u32 (offset + 0x2000))
            then next_turn
                (record s { curr_offset = offset; block_info = blocks; cont_process = false })
            else next_table sha con start
                (record s { block_info = blocks; cont_process = more })
                offset
      ])
  pass_lem start len s corrupt small here h = tt
  pass_lem start len s (pass offset blocks more) small here h =
      elim (Bool-cases (leb len (u32 (offset + 0x2000)))) [
        | inl e ↦ rw e (h.2, (λ m. ground arith))
        | inr e ↦ rw e (
            go (ground (arith, e, h.0))
              (next_table sha con start (record s { block_info = blocks; cont_process = more })
                offset)
              (next_table_lem start (record s { block_info = blocks; cont_process = more }) offset
                (omega arith)))
      ]
    where
      go :
          offset + 0x2000 < len
          → (t : Turn) → Entered (record s { block_info = blocks; cont_process = more }) offset t
          → Turned s len t
      go room mismatch k = tt
      go room (next_turn s') k = (
        rw k.2 h.2,
        λ m.
            let all : offset ≡ s.curr_offset + 0xaa * 0x1000 = h.1 (sym k.3 ∙ m) in
            (omega (arith, k.0, all), omega (arith, k.1, room), k.4),
      )

  -- A run that ends, and knows the blocks of a container that it accepts.
  abbrev Ends : Option Outcome → Type 0
  Ends run = (o : Outcome) × (run ≡ some o) × (o.ok ≡ true → AllBacked o.block_info)

  after_turn :
      (start len fuel : ℕ) (s : State) (t : Turn)
      → Turned s len t
      → ((s' : State)
          → s.curr_offset + 0xab000 ≤ s'.curr_offset
          → s'.curr_offset ≤ len
          → s'.curr_offset ≡ s'.table + 0x1000
          → AllBacked s'.block_info
          → Ends (check_loop sha con start len fuel s'))
      → Ends (elim t as (λ _. Option Outcome) [
        | mismatch ↦ some (record { ok = false; block_info = s.block_info })
        | next_turn s' ↦
            let rest = check_loop sha con start len fuel s' in
            if s'.cont_process
            then rest
            else some (record { ok = true; block_info = s'.block_info })
      ])
  after_turn start len fuel s mismatch h again =
      (record { ok = false; block_info = s.block_info }, refl, λ m. ground arith)
  after_turn start len fuel s (next_turn s') h again = elim (Bool-cases s'.cont_process) [
    | inl m ↦ simp m (again s' (h.1 m).0 (h.1 m).1 (h.1 m).2 h.0)
    | inr m ↦ rw m (record { ok = true; block_info = s'.block_info }, refl, λ _. h.0)
  ]

  turn_lem :
      (start len : ℕ) (s : State)
      → len < 2 ^ 31
      → s.curr_offset ≤ 2 ^ 31 + 0x1000
      → s.curr_offset ≡ s.table + 0x1000
      → AllBacked s.block_info
      → Turned s len (turn sha con start len s)
  unfolding turn
  turn_lem start len s small here behind h = pass_lem start len s _ small here (
      check_table_lem 0xaa 0 s.table s.curr_offset s.block_info refl (omega arith)
        (omega (arith, behind)) h)

  -- The whole loop, with enough fuel.
  check_loop_lem :
      (start len fuel : ℕ) (s : State)
      → len < 2 ^ 31
      → s.curr_offset ≤ 2 ^ 31 + 0x1000
      → len < s.curr_offset + suc fuel * 0xab000
      → s.curr_offset ≡ s.table + 0x1000
      → AllBacked s.block_info
      → Ends (check_loop sha con start len (suc fuel) s)
  unfolding check_loop
  check_loop_lem start len zero s small here enough behind h =
      after_turn start len zero s _ (turn_lem start len s small here behind h)
        (λ s' lo hi behind' h'. absurd (omega arith))
  check_loop_lem start len (suc fuel) s small here enough behind h =
      after_turn start len (suc fuel) s _ (turn_lem start len s small here behind h)
        (λ s' lo hi behind' h'.
          check_loop_lem start len fuel s' small (omega arith) (omega arith) behind' h')

  -- For a container below 2 GB whose header is too, `conCheckHashes` ends, with one turn for each
  -- 0xAB000 bytes and one more. If it accepts, the content id of the header is the hash of the
  -- header's rest, and every block that it lists has a hash that stands in its entry of a hash
  -- table: entry `i` of a table is that of the block that begins `i + 1` pages behind the table's
  -- own beginning.
  pub con_check_hashes_lem :
      (fuel start len : ℕ)
      → start < 2 ^ 31
      → len < 2 ^ 31
      → len / 0xab000 + 1 ≤ fuel
      → (o : Outcome) × (con_check_hashes sha con fuel start len ≡ some o)
        × (o.ok ≡ true
            → (slice con 0x32c 0x14 ≡ sha (slice con 0x344 (sub32 start 0x344)))
              × AllBacked o.block_info)
  unfolding con_check_hashes AllBacked
  con_check_hashes_lem zero start len at small enough = absurd (omega arith)
  con_check_hashes_lem (suc fuel) start len at small enough =
      let same = same_hash (slice con 0x32c 0x14) (sha (slice con 0x344 (sub32 start 0x344))) in
      elim (Bool-cases same) [
        | inl e ↦
            let (o, run, sound) =
              check_loop_lem start len fuel (first_state sha con start) small (omega arith)
                (omega arith) (omega arith) tt in
            rw e (o, run, λ m. (same_hash_sound _ _ e, sound m))
        | inr e ↦ rw e (record { ok = false; block_info = [] }, refl, λ m. ground arith)
      ]
