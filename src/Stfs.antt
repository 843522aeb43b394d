-- ===== src/Stfs.antt =====
-- tools/su_check/su_check/main.c: the check of an STFS container against its hash tables. The
-- buffer is a function from offsets to bytes with a length, so a read behind the end gives bytes
-- that are not the container's; offsets are words of 32 bits. `XeCryptSha` is a parameter, and
-- pointers to hash tables are offsets.
pub mod Sound
pub mod Cover
use xe_build.Base.{
  ℕ, zero, suc, ◌+◌, ◌*◌, Bool, true, false, ◌&&◌, Option, none, some, List, [], ◌∷◌, ◌++◌, leb,
  ◌==◌, ◌!=◌, if◌then◌else◌, u32, sub32, clear_bits,
}
use xe_build.Bytes.{get_le32, get_be32, check_zeros}
use xe_build.Svod.Disc.{Memory, slice}

-- `memcmp(..) == 0` on the bytes of two hashes.
unfoldable pub same_hash : List ℕ → List ℕ → Bool
same_hash [] [] = true
same_hash [] (b ∷ bs) = false
same_hash (a ∷ xs) [] = false
same_hash (a ∷ xs) (b ∷ ys) = if a == b then same_hash xs ys else false

-- What is left of a table once its entries are through: the offset behind the last block that was
-- hashed, `blockInfo` so far and `contProcess`.
pub data Pass : Type 0 where
  corrupt : Pass
  pass : ℕ → List ℕ → Bool → Pass

-- The variables of `conCheckHashes`: `hb`, `currOffset`, `blockInfo`, `j`, `mhb`, `contProcess`.
pub record State : Type 0 where
  pub table : ℕ
  pub curr_offset : ℕ
  pub block_info : List ℕ
  pub index : ℕ
  pub master : Option ℕ
  pub cont_process : Bool

pub data Turn : Type 0 where
  mismatch : Turn
  next_turn : State → Turn

pub record Outcome : Type 0 where
  pub ok : Bool
  pub block_info : List ℕ

module _ (sha : List ℕ → List ℕ) (con : Memory) where
  -- The hash and the whole of an entry.
  abbrev pub entry_hash : ℕ → ℕ → List ℕ
  entry_hash table i = slice con (table + i * 0x18) 0x14

  abbrev pub page_hash : ℕ → List ℕ
  page_hash offset = sha (slice con offset 0x1000)

  -- The loop over the entries from `i` on.
  unfoldable pub check_table : ℕ → ℕ → ℕ → ℕ → List ℕ → Pass
  check_table zero i table offset blocks = pass offset blocks true
  check_table (suc left) i table offset blocks =
      let rest = check_table left (i + 1) table (u32 (offset + 0x1000)) (blocks ++ (offset ∷ [])) in
      if check_zeros (slice con (table + i * 0x18) 0x18) 0 0x18
      then pass offset blocks false
      else if same_hash (page_hash offset) (entry_hash table i)
      then rest
      else corrupt

  -- The check of a table against the master table, if there is one, and the step past the table.
  unfoldable pub enter_table : State → ℕ → Option ℕ → Turn
  enter_table s offset master =
      let next = record s {
        table = offset;
        curr_offset = u32 (offset + 0x1000);
        index = s.index + 1;
        master = master;
      } in
      elim master [
        | none ↦ next_turn next
        | some m ↦
            if same_hash (page_hash offset) (entry_hash m (s.index + 1))
            then next_turn next
            else mismatch
      ]

  -- The page behind a table's blocks: the master table, backed by the header, or the next table.
  unfoldable pub next_table : ℕ → State → ℕ → Turn
  next_table start s offset =
      if get_le32 (slice con (offset + 0x14) 4) 0 == 0
      then if same_hash (slice con 0x381 0x14) (page_hash offset)
        then if same_hash (page_hash start) (entry_hash offset 0)
          then enter_table s (u32 (offset + 0x1000)) (some offset)
          else mismatch
        else mismatch
      else enter_table s offset s.master

  -- The body of the `while` loop.
  unfoldable pub turn : ℕ → ℕ → State → Turn
  turn start len s = elim (check_table 0xaa 0 s.table s.curr_offset s.block_info) [
    | corrupt ↦ mismatch
    | pass offset blocks more ↦
        if leb len (u32 (offset + 0x2000))
        then next_turn
            (record s { curr_offset = offset; block_info = blocks; cont_process = false })
        else next_table start (record s { block_info = blocks; cont_process = more }) offset
  ]

  unfoldable pub check_loop : ℕ → ℕ → ℕ → State → Option Outcome
  check_loop start len zero s = none
  check_loop start len (suc fuel) s = elim (turn start len s) [
    | mismatch ↦ some (record { ok = false; block_info = s.block_info })
    | next_turn s' ↦
        let rest = check_loop start len fuel s' in
        if s'.cont_process then rest else some (record { ok = true; block_info = s'.block_info })
  ]

  abbrev pub first_state : ℕ → State
  first_state start = record {
    table = start;
    curr_offset = u32 (start + 0x1000);
    block_info = [];
    index = 0;
    master = none;
    cont_process = true;
  }

  -- `conCheckHashes`.
  unfoldable pub con_check_hashes : ℕ → ℕ → ℕ → Option Outcome
  con_check_hashes fuel start len =
      if same_hash (slice con 0x32c 0x14) (sha (slice con 0x344 (sub32 start 0x344)))
      then check_loop start len fuel (first_state start)
      else some (record { ok = false; block_info = [] })

  -- `XCONTENT_ROUND_UP_TO_ALIGNMENT` of the size in the header, and the version that counts.
  abbrev pub data_start : ℕ
  data_start = clear_bits (u32 (get_be32 (slice con 0x340 4) 0 + 0xfff)) 12

  abbrev pub container_version : Bool → ℕ
  container_version is_supd =
      if is_supd then get_be32 (slice con 0x9722 4) 0 else get_be32 (slice con 0x358 4) 0

  -- `conCheckHeader` where the allocation of `blockInfo` succeeds.
  unfoldable pub con_check_header : ℕ → ℕ → ℕ → Bool → Option Bool
  con_check_header fuel len exp_ver is_supd =
      if exp_ver != 0 && container_version is_supd != exp_ver
      then some false
      else elim (con_check_hashes fuel data_start len) [ none ↦ none | some o ↦ some o.ok ]
