-- ===== src/Svod/Writer.antt =====
-- `writeIsoBody` and its helpers in tools/iso2svod/source/isoio.c: the data of the disc goes into
-- numbered files, each a page of block hashes and up to 0xCB blocks, each block a page of chunk
-- hashes and up to 0xCC chunks of 0x1000 bytes. `XeCryptSha` and whether a file can be created are
-- parameters; a write to an open file succeeds. Files and blocks are listed newest first.
pub mod Blocks
pub mod Round
pub mod Body
pub mod Sizes
pub mod Ends
use xe_build.Base.{
  ℕ, zero, suc, ◌+◌, ◌-◌, ◌*◌, ◌/◌, Bool, true, false, Option, none, some, List, [], ◌∷◌, ◌++◌,
  replicate, ◌||◌, leb, ◌==◌, ◌!=◌, if◌then◌else◌, sub32,
}
use xe_build.Svod.Disc.{Memory, Disc, Read, sector_size, set_iso_sector, read_iso_data, slice}

abbrev pub Hash : Type 0
Hash = List ℕ

abbrev pub max_data_block_size : ℕ
max_data_block_size = 0xcc000

abbrev pub max_data_block_count : ℕ
max_data_block_count = 0xcb

-- `SVOD_LEVEL0_BACKING_BLOCKS`: the entries of the hash page, and the data.
pub record DataBlock : Type 0 where
  pub hashes : ℕ → Hash
  pub bytes : Memory

-- `SVOD_LEVEL1_HASH_BLOCK`.
pub record Level1 : Type 0 where
  pub entries : ℕ → Hash
  pub next : Hash

-- A block in a file: what was in memory, and how many chunks of it were written.
pub record Block : Type 0 where
  pub content : DataBlock
  pub chunks : ℕ

pub record SvodFile : Type 0 where
  pub header : Level1
  pub blocks : List Block

abbrev pub zero_hash : Hash
zero_hash = replicate 0x14 0

abbrev pub zero_level1 : Level1
zero_level1 = record { entries = λ k. zero_hash; next = zero_hash }

abbrev pub zero_block : DataBlock
zero_block = record { hashes = λ k. zero_hash; bytes = λ k. 0 }

abbrev pub fresh_file : SvodFile
fresh_file = record { header = zero_level1; blocks = [] }

-- The first `n` entries of a hash page, one behind the other.
pub entry_bytes : (ℕ → Hash) → ℕ → List ℕ
entry_bytes entries zero = []
entry_bytes entries (suc n) = entry_bytes entries n ++ entries n

-- The 0x1000 bytes of the two kinds of hash page.
pub level0_page : (ℕ → Hash) → List ℕ
level0_page hashes = entry_bytes hashes 0xcc ++ replicate 0x10 0

pub level1_page : Level1 → List ℕ
level1_page h = entry_bytes h.entries 0xcb ++ (h.next ++ replicate 0x10 0)

-- One entry of a table stored anew.
abbrev pub update : (ℕ → Hash) → ℕ → Hash → ℕ → Hash
update table k v j = if j == k then v else table j

-- The state of the loop. `is_open` says that `file` is not closed yet.
pub record State : Type 0 where
  pub cur_file_num : ℕ
  pub cur_block : ℕ
  pub cur_off : ℕ
  pub sectors_rem : ℕ
  pub pos : ℕ
  pub datablock : DataBlock
  pub lv1hash : Level1
  pub file : SvodFile
  pub is_open : Bool
  pub closed : List SvodFile

-- What the function returns, and the files that it leaves.
pub record Outcome : Type 0 where
  pub ret : ℕ
  pub files : List SvodFile

pub data Turn : Type 0 where
  next_turn : State → Turn
  stop : Outcome → Turn

abbrev pub all_files : State → List SvodFile
all_files s = if s.is_open then s.file ∷ s.closed else s.closed

abbrev pub failed : State → Outcome
failed s = record { ret = 0; files = all_files s }

unfoldable pub write_block_to_file : SvodFile → DataBlock → ℕ → SvodFile
write_block_to_file f b chunks = record f {
  blocks = record { content = b; chunks = chunks } ∷ f.blocks;
}

unfoldable pub write_header_to_file : SvodFile → Level1 → SvodFile
write_header_to_file f h = record f { header = h }

module _ (sha : List ℕ → Hash) (opens : ℕ → Bool) (d : Disc) where
  -- The loop of `doBlockHashes` at `i`, with `left` rounds to go.
  pub hash_chunks : Memory → ℕ → ℕ → (ℕ → Hash) → ℕ → Hash
  hash_chunks mem zero i hashes = hashes
  hash_chunks mem (suc left) i hashes =
      hash_chunks mem left (i + 1) (update hashes i (sha (slice mem (i * 0x1000) 0x1000)))

  pub do_block_hashes : ℕ → DataBlock → DataBlock
  do_block_hashes num b = record b { hashes = hash_chunks b.bytes num 0 b.hashes }

  pub do_level1_hash : ℕ → DataBlock → Level1 → Level1
  do_level1_hash num b h = record h { entries = update h.entries num (sha (level0_page b.hashes)) }

  -- How much one turn of the loop reads.
  pub data_to_read : State → ℕ
  data_to_read s =
      if leb ((max_data_block_size - s.cur_off) / sector_size) s.sectors_rem
      then max_data_block_size - s.cur_off
      else s.sectors_rem * sector_size

  pub sectors_to_hash : State → ℕ → ℕ
  sectors_to_hash s sectors =
      if s.cur_off != 0
      then (sectors + 1) / 2 + s.cur_off / (sector_size * 2)
      else (sectors + 1) / 2

  -- The header is written and the next file started.
  pub roll_over : State → State
  roll_over s = record s {
    cur_file_num = s.cur_file_num + 1;
    cur_block = 0;
    lv1hash = zero_level1;
    file = fresh_file;
    closed = write_header_to_file s.file s.lv1hash ∷ s.closed;
  }

  -- The header is written and no file follows.
  pub finish : State → State
  finish s = record s {
    cur_block = 0;
    is_open = false;
    closed = write_header_to_file s.file s.lv1hash ∷ s.closed;
  }

  -- The end of a turn: the file is finished where it is full or nothing remains.
  pub end_turn : State → Turn
  end_turn s =
      if s.cur_block == max_data_block_count || s.sectors_rem == 0
      then if s.sectors_rem != 0
        then if opens (s.cur_file_num + 1)
          then next_turn (roll_over s)
          else stop (failed (finish s))
        else next_turn (finish s)
      else next_turn s

  -- A turn once its data is in memory.
  pub store_block : State → ℕ → Read → State
  store_block s sectors r =
      let chunks = sectors_to_hash s sectors in
      let hashed = do_block_hashes chunks (record { hashes = s.datablock.hashes; bytes = r.mem }) in
      record s {
        cur_off = 0;
        sectors_rem = s.sectors_rem - sectors;
        pos = r.pos;
        lv1hash = do_level1_hash s.cur_block hashed s.lv1hash;
        cur_block = s.cur_block + 1;
        file = write_block_to_file s.file hashed chunks;
        datablock = zero_block;
      }

  pub turn : State → Turn
  turn s =
      let len = data_to_read s in
      let r = read_iso_data d s.pos s.datablock.bytes s.cur_off len in
      if r.success then end_turn (store_block s (len / sector_size) r) else stop (failed s)

  -- `while (sectorsRem)`; `none` means that the fuel ran out.
  pub write_loop : ℕ → State → Option Outcome
  write_loop zero s = none
  write_loop (suc fuel) s =
      if s.sectors_rem == 0
      then some (record { ret = s.cur_file_num; files = all_files s })
      else elim (turn s) [ next_turn s' ↦ write_loop fuel s' | stop o ↦ some o ]

  -- The state before the loop. The first 0x1000 bytes of data come from the sector of the XGD
  -- magic, whatever that read returns.
  pub first_state : ℕ → ℕ → State
  first_state max_sector min_sector =
      let r = read_iso_data d (set_iso_sector d 0x20) zero_block.bytes 0 0x1000 in
      record {
        cur_file_num = 0;
        cur_block = 0;
        cur_off = 0x1000;
        sectors_rem = sub32 max_sector min_sector;
        pos = set_iso_sector d min_sector;
        datablock = record { hashes = zero_block.hashes; bytes = r.mem };
        lv1hash = zero_level1;
        file = fresh_file;
        is_open = true;
        closed = [];
      }

  pub write_iso_body : ℕ → ℕ → ℕ → Option Outcome
  write_iso_body fuel max_sector min_sector =
      let run = write_loop fuel (first_state max_sector min_sector) in
      if opens 0 then run else some (record { ret = 0; files = [] })
