-- ===== src/Svod/Writer/Round.antt =====
-- One turn of the loop of `writeIsoBody` keeps its invariant.
use xe_build.Base.{
  ℕ, ◌+◌, ◌-◌, ◌*◌, ◌/◌, ◌≤◌, ◌<◌, min, ◌≡◌, ◌⊎◌, inl, inr, refl, ap, ◌∙◌, Bool, true, false, List,
  length, arith, ◌&&◌, leb, ◌==◌, Bool-cases,
}
use mathlib.Core.Path.{subst}
use xe_build.Svod.Disc.{Memory, Disc, Read, set_iso_sector, read_iso_data}
use xe_build.Svod.Writer.{
  Hash, Block, State, zero_hash, next_turn, do_block_hashes, do_level1_hash, data_to_read,
  sectors_to_hash, store_block, end_turn, turn, write_block_to_file, write_header_to_file,
  roll_over, finish,
}
use xe_build.Svod.Writer.Blocks.{
  payload, blocks_for, files_for, BlockIs, BlocksAre, FileIs, FilesAre, BlocksAre-update, slice_ext,
  payload_rest, hash_chunks_lem,
}

module _ (sha : List ℕ → Hash) (opens : ℕ → Bool) (d : Disc) (min_sector total : ℕ) where
  abbrev source : Memory
  source = payload d min_sector

  abbrev start : ℕ
  start = set_iso_sector d min_sector

  -- The number of the block that the loop writes next.
  abbrev pub number : State → ℕ
  number s = s.cur_file_num * 0xcb + s.cur_block

  -- Between two turns, while data remains.
  pub record Inv (s : State) : Type 0 where
    pub remains : 0 < s.sectors_rem
    pub opened : s.is_open ≡ true
    pub file_num : s.cur_file_num ≡ length s.closed
    pub block_num : s.cur_block ≡ length s.file.blocks
    pub room : s.cur_block < 0xcb
    pub offset : ((number s ≡ 0) × (s.cur_off ≡ 0x1000)) ⊎ ((0 < number s) × (s.cur_off ≡ 0))
    pub rem : s.sectors_rem + number s * 0x198 + s.cur_off / 0x800 ≡ 2 * total
    pub pos : s.pos + 0x1000 ≡ start + number s * 0xcc000 + s.cur_off
    pub bytes : (k : ℕ) → k < s.cur_off → s.datablock.bytes k ≡ source (number s * 0xcc000 + k)
    pub blocks : BlocksAre sha source total (s.cur_file_num * 0xcb) s.lv1hash.entries s.file.blocks
    pub clear : (c : ℕ) → s.datablock.hashes c ≡ zero_hash
    pub unused : (c : ℕ) → s.cur_block ≤ c → s.lv1hash.entries c ≡ zero_hash
    pub files : FilesAre sha source total s.closed

  -- Behind a block, before the file is finished.
  pub record Stored (s : State) : Type 0 where
    pub opened : s.is_open ≡ true
    pub file_num : s.cur_file_num ≡ length s.closed
    pub block_num : s.cur_block ≡ length s.file.blocks
    pub room : (0 < s.cur_block) × (s.cur_block ≤ 0xcb)
    pub offset : s.cur_off ≡ 0
    pub rem : s.sectors_rem ≡ 2 * total - number s * 0x198
    pub needed : (number s - 1) * 0xcc < total
    pub pos : 0 < s.sectors_rem → s.pos + 0x1000 ≡ start + number s * 0xcc000
    pub blocks : BlocksAre sha source total (s.cur_file_num * 0xcb) s.lv1hash.entries s.file.blocks
    pub clear : (c : ℕ) → s.datablock.hashes c ≡ zero_hash
    pub unused : (c : ℕ) → s.cur_block ≤ c → s.lv1hash.entries c ≡ zero_hash
    pub files : FilesAre sha source total s.closed

  -- Behind the last turn.
  pub record Finished (s : State) : Type 0 where
    pub remains : s.sectors_rem ≡ 0
    pub opened : s.is_open ≡ false
    pub file_num : s.cur_file_num + 1 ≡ length s.closed
    pub count : length s.closed ≡ files_for (blocks_for total)
    pub files : FilesAre sha source total s.closed

  data_to_read_lem :
      (s : State)
      → Inv s
      → (data_to_read sha opens d s / 0x800 * 0x800 ≡ data_to_read sha opens d s)
        × (data_to_read sha opens d s / 0x800 ≡ min s.sectors_rem (0x198 - s.cur_off / 0x800))
  unfolding data_to_read
  data_to_read_lem s v = ground (arith, v.offset)

  -- The turn hashes and writes every chunk that belongs into the block.
  chunks_lem :
      (s : State)
      → Inv s
      → let len = data_to_read sha opens d s in
        let chunks = sectors_to_hash sha opens d s (len / 0x800) in
        (chunks * 0x1000 ≡ s.cur_off + len) × (chunks ≡ min 0xcc (total - number s * 0xcc))
  unfolding sectors_to_hash
  chunks_lem s v = ground (arith, v.offset, v.rem, v.remains, data_to_read_lem s v)

  -- The disc reaches as far as a turn reads.
  in_disc :
      (s : State)
      → Inv s
      → start + (2 * total - 2) * 0x800 ≤ d.size
      → let len = data_to_read sha opens d s in (leb 1 len && leb (s.pos + len) d.size) ≡ true
  in_disc s v fits = ground (arith, v.offset, v.rem, v.pos, v.remains, data_to_read_lem s v)

  same_byte : (a b : ℕ) → a ≡ b → d.byte a ≡ d.byte b
  same_byte a b e = ap d.byte e

  -- The read of a turn succeeds, and the buffer holds the block's part of the source.
  read_lem :
      (s : State)
      → Inv s
      → start + (2 * total - 2) * 0x800 ≤ d.size
      → let len = data_to_read sha opens d s in
        let r = read_iso_data d s.pos s.datablock.bytes s.cur_off len in
        (r.success ≡ true)
        × (r.pos ≡ s.pos + len)
        × ((k : ℕ) → k < s.cur_off + len → r.mem k ≡ source (number s * 0xcc000 + k))
  unfolding read_iso_data
  read_lem s v fits = (
    rw (in_disc s v fits) refl,
    rw (in_disc s v fits) refl,
    λ k lt. rw (in_disc s v fits) (
        ground (
          arith,
          v.offset,
          v.bytes k,
          payload_rest d min_sector (number s * 0xcc000 + k),
          same_byte (s.pos + (k - s.cur_off)) (start + (number s * 0xcc000 + k - 0x1000)),
          v.pos,
        )),
  )

  -- The block that a turn writes is the one that the package has at its place.
  block_lem :
      (s : State)
      → Inv s
      → start + (2 * total - 2) * 0x800 ≤ d.size
      → let len = data_to_read sha opens d s in
        let r = read_iso_data d s.pos s.datablock.bytes s.cur_off len in
        let chunks = sectors_to_hash sha opens d s (len / 0x800) in
        BlockIs sha source total (number s) (record {
          content =
              do_block_hashes sha opens d chunks
                (record { hashes = s.datablock.hashes; bytes = r.mem });
          chunks = chunks;
        })
  unfolding do_block_hashes
  block_lem s v fits =
      let len = data_to_read sha opens d s in
      let r = read_iso_data d s.pos s.datablock.bytes s.cur_off len in
      let chunks = sectors_to_hash sha opens d s (len / 0x800) in
      let sized = chunks_lem s v in
      let held = (read_lem s v fits).2 in
      record {
        count = sized.1;
        bytes = λ k lt. held k (omega (arith, sized));
        hashes = λ c lt.
            hash_chunks_lem sha opens d r.mem chunks 0 s.datablock.hashes c
            ∙ (ground (
              arith,
              slice_ext r.mem source (c * 0x1000) (number s * 0xcc000 + c * 0x1000) 0x1000 (λ k lk.
                  subst (λ (t : ℕ). r.mem (c * 0x1000 + k) ≡ source t) (omega arith)
                    (held (c * 0x1000 + k) (omega (arith, sized)))),
            ));
        unused = λ c le.
            hash_chunks_lem sha opens d r.mem chunks 0 s.datablock.hashes c
            ∙ ground (arith, le, v.clear c);
      }

  store-Stored :
      (s : State)
      → Inv s
      → start + (2 * total - 2) * 0x800 ≤ d.size
      → let len = data_to_read sha opens d s in
        let r = read_iso_data d s.pos s.datablock.bytes s.cur_off len in
        Stored (store_block sha opens d s (len / 0x800) r)
  unfolding store_block do_level1_hash write_block_to_file
  store-Stored s v fits =
      let sized = chunks_lem s v in
      let whole = data_to_read_lem s v in
      let read = read_lem s v fits in
      let len = data_to_read sha opens d s in
      let r = read_iso_data d s.pos s.datablock.bytes s.cur_off len in
      let chunks = sectors_to_hash sha opens d s (len / 0x800) in
      let written : Block = record {
        content =
            do_block_hashes sha opens d chunks
              (record { hashes = s.datablock.hashes; bytes = r.mem });
        chunks = chunks;
      } in
      record {
        opened = v.opened;
        file_num = v.file_num;
        block_num = omega (arith, v.block_num);
        room = (omega arith, omega arith);
        offset = refl;
        rem = ground (arith, v.offset, v.rem, whole);
        needed = ground (arith, v.offset, v.rem, v.remains);
        pos = λ more. ground (arith, v.offset, v.rem, v.pos, whole, read);
        blocks = (
          subst (λ (t : ℕ). BlockIs sha source total (s.cur_file_num * 0xcb + t) written)
              v.block_num (block_lem s v fits),
          ground (arith, v.block_num),
          BlocksAre-update sha source total (s.cur_file_num * 0xcb) s.lv1hash.entries s.file.blocks
              s.cur_block _ (omega (arith, v.block_num)) v.blocks,
        );
        clear = λ c. refl;
        unused = λ c le. ground (arith, le, v.unused c (omega (arith, le)));
        files = v.files;
      }

  -- A file that is full, or behind which nothing remains, is as the package has it.
  Stored-FileIs :
      (s : State)
      → Stored s
      → (s.cur_block ≡ 0xcb) ⊎ (s.sectors_rem ≡ 0)
      → FileIs sha source total (length s.closed) (write_header_to_file s.file s.lv1hash)
  unfolding write_header_to_file
  Stored-FileIs s v ended = record {
    count = ground (arith, v.block_num, v.file_num, v.room, v.rem, v.needed, ended);
    blocks =
        subst (λ (t : ℕ). BlocksAre sha source total (t * 0xcb) s.lv1hash.entries s.file.blocks)
          v.file_num v.blocks;
    unused = λ c le. v.unused c (omega (arith, le, v.block_num));
  }

  roll_over-Inv :
      (s : State)
      → Stored s
      → 0 < s.sectors_rem
      → s.cur_block ≡ 0xcb
      → Inv (roll_over sha opens d s)
  unfolding roll_over
  roll_over-Inv s v more full = record {
    remains = more;
    opened = v.opened;
    file_num = omega (arith, v.file_num);
    block_num = refl;
    room = omega arith;
    offset = inr (omega arith, v.offset);
    rem = omega (arith, v.rem, v.offset);
    pos = omega (arith, v.pos more, v.offset);
    bytes = λ k lt. absurd (omega (arith, v.offset));
    blocks = tt;
    clear = v.clear;
    unused = λ c le. refl;
    files = (Stored-FileIs s v (inl full), v.files);
  }

  Stored-Inv : (s : State) → Stored s → 0 < s.sectors_rem → s.cur_block < 0xcb → Inv s
  Stored-Inv s v more part = record {
    remains = more;
    opened = v.opened;
    file_num = v.file_num;
    block_num = v.block_num;
    room = part;
    offset = inr (omega (arith, v.room), v.offset);
    rem = omega (arith, v.rem, v.offset);
    pos = omega (arith, v.pos more, v.offset);
    bytes = λ k lt. absurd (omega (arith, v.offset));
    blocks = v.blocks;
    clear = v.clear;
    unused = v.unused;
    files = v.files;
  }

  finish-Finished : (s : State) → Stored s → s.sectors_rem ≡ 0 → Finished (finish sha opens d s)
  unfolding finish
  finish-Finished s v none_left = record {
    remains = none_left;
    opened = refl;
    file_num = omega (arith, v.file_num);
    count = omega (arith, v.file_num, v.rem, v.room, v.needed);
    files = (Stored-FileIs s v (inr none_left), v.files);
  }

  -- What a turn does behind its block where every file can be created.
  end_turn_lem :
      (s : State)
      → Stored s
      → opens (s.cur_file_num + 1) ≡ true
      → ((s' : State) × (end_turn sha opens d s ≡ next_turn s')
          × Inv s'
          × (s'.sectors_rem ≡ s.sectors_rem))
        ⊎ ((s' : State) × (end_turn sha opens d s ≡ next_turn s') × Finished s')
  unfolding end_turn
  end_turn_lem s v can = elim (Bool-cases (s.sectors_rem == 0)) [
    | inl z ↦ inr (finish sha opens d s, ground (arith, z), finish-Finished s v (ground (arith, z)))
    | inr more ↦ elim (Bool-cases (s.cur_block == 0xcb)) [
      | inl full ↦ inl (
        roll_over sha opens d s,
        ground (arith, more, full, can),
        roll_over-Inv s v (ground (arith, more)) (ground (arith, full)),
        unfold roll_over in refl,
      )
      | inr part ↦ inl (
        s,
        ground (arith, more, part),
        Stored-Inv s v (ground (arith, more)) (ground (arith, part, v.room)),
        refl,
      )
    ]
  ]

  store_block_rem :
      (s : State) (sectors : ℕ) (r : Read)
      → (store_block sha opens d s sectors r).sectors_rem ≡ s.sectors_rem - sectors
  unfolding store_block
  store_block_rem s sectors r = refl

  -- A turn from a state of the loop either leaves fewer sectors and the invariant, or is the last.
  pub turn_lem :
      (s : State)
      → Inv s
      → start + (2 * total - 2) * 0x800 ≤ d.size
      → ((n : ℕ) → opens n ≡ true)
      → ((s' : State) × (turn sha opens d s ≡ next_turn s')
          × Inv s'
          × (s'.sectors_rem < s.sectors_rem))
        ⊎ ((s' : State) × (turn sha opens d s ≡ next_turn s') × Finished s')
  unfolding turn
  turn_lem s v fits can =
      let len = data_to_read sha opens d s in
      let r = read_iso_data d s.pos s.datablock.bytes s.cur_off len in
      let s₁ = store_block sha opens d s (len / 0x800) r in
      let good = (read_lem s v fits).0 in
      let less : s₁.sectors_rem < s.sectors_rem =
        ground
          (arith, store_block_rem s (len / 0x800) r, data_to_read_lem s v, v.remains, v.offset) in
      elim (end_turn_lem s₁ (store-Stored s v fits) (can (s₁.cur_file_num + 1))) [
        | inl (s', e, i, le) ↦ inl (s', simp good e, i, omega (arith, less, le))
        | inr (s', e, f) ↦ inr (s', simp good e, f)
      ]
