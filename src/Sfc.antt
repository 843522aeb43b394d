-- ===== src/Sfc.antt =====
-- tools/scriptsetc/flash_config.c: `SFC_init` reads the geometry of the NAND flash out of the
-- configuration register. The register's value is an argument. A shift of the `int` 1 by 32 or
-- more is undefined in C; here it gives 0, and the laws ask for less.
pub mod Geometry
use xe_build.Base.{ℕ, ◌+◌, ◌-◌, ◌*◌, ◌/◌, ◌^◌, low_bits, ◌>>>◌, ◌==◌, if◌then◌else◌, u32}

pub record Sfc : Type 0 where
  pub initialized : ℕ
  pub meta_type : ℕ
  pub page_sz : ℕ
  pub meta_sz : ℕ
  pub page_sz_phys : ℕ
  pub blocks_per_lg_block : ℕ
  pub block_sz : ℕ
  pub size_blocks : ℕ
  pub size_bytes : ℕ
  pub size_usable_fs : ℕ
  pub addr_config : ℕ
  pub len_config : ℕ
  pub pages_in_block : ℕ
  pub block_sz_phys : ℕ
  pub size_pages : ℕ
  pub size_bytes_phys : ℕ
  pub size_mb : ℕ

-- The returned code with the state, 0 for success.
pub data Init : Type 0 where
  chosen : Sfc → Init
  unsupported : ℕ → Sfc → Init

-- `(config >> 17) & 0x03` and `(config >> 4) & 0x3`.
abbrev pub controller : ℕ → ℕ
controller config = low_bits (config >>> 17) 2

abbrev pub layout : ℕ → ℕ
layout config = low_bits (config >>> 4) 2

-- `((config >> 19) & 0x3) + ((config >> 21) & 0xF) + 0x17`.
abbrev pub size_shift : ℕ → ℕ
size_shift config = low_bits (config >>> 19) 2 + low_bits (config >>> 21) 4 + 0x17

-- The assignments before the switch.
unfoldable pub defaults : Sfc → Sfc
defaults s = record s {
  initialized = 0;
  meta_type = 0;
  page_sz = 0x200;
  meta_sz = 0x10;
  page_sz_phys = u32 (0x200 + 0x10);
}

-- A layout of 16 KB blocks.
unfoldable pub small_blocks : ℕ → ℕ → Sfc → Sfc
small_blocks blocks usable s = record s {
  block_sz = 0x4000;
  size_blocks = blocks;
  size_bytes = u32 (blocks * 2 ^ 0xe);
  size_usable_fs = usable;
  addr_config = u32 ((usable - 4) * 0x4000);
}

-- A layout of `2 ^ log` byte blocks, with its size in the register.
unfoldable pub large_blocks : ℕ → ℕ → ℕ → Sfc → Sfc
large_blocks config log usable s =
    let bytes = u32 (2 ^ size_shift config) in
    record s {
      meta_type = 2;
      block_sz = 2 ^ log;
      size_bytes = bytes;
      size_blocks = bytes >>> log;
      blocks_per_lg_block = 1;
      size_usable_fs = usable;
      addr_config = u32 ((usable - 4) * 2 ^ log);
    }

-- `case 0`: the controllers before Jasper.
unfoldable pub original : ℕ → Sfc → Init
unfolding small_blocks
original config s =
    let s' = record s { meta_type = 0; blocks_per_lg_block = 8 } in
    if layout config == 0
    then unsupported 1 s'
    else if layout config == 1
    then chosen (small_blocks 0x400 0x3e0 s')
    else if layout config == 2
    then chosen (small_blocks 0x800 0x7c0 s')
    else chosen (small_blocks 0x1000 0xf80 s')

-- `case 1` and `case 2`.
unfoldable pub panda : ℕ → Sfc → Init
unfolding small_blocks large_blocks
panda config s =
    let s' = record s { meta_type = 1; blocks_per_lg_block = 8 } in
    if layout config == 0
    then if controller config == 1
      then unsupported 2 (record s { meta_type = 0 })
      else chosen (small_blocks 0x400 0x3e0 s')
    else if layout config == 1
    then if controller config == 1
      then chosen (small_blocks 0x400 0x3e0 s')
      else chosen (small_blocks 0x1000 0xf80 s')
    else if layout config == 2
    then chosen (large_blocks config 17 0x1e0 s)
    else chosen (large_blocks config 18 0xf0 s)

-- The assignments behind the switch.
unfoldable pub derived : Sfc → Sfc
derived s =
    let pages = s.block_sz / s.page_sz in
    let block_phys = u32 (pages * s.page_sz_phys) in
    let blocks = s.size_bytes / s.block_sz in
    record s {
      len_config = u32 (s.block_sz * 4);
      pages_in_block = pages;
      block_sz_phys = block_phys;
      size_pages = s.size_bytes / s.page_sz;
      size_blocks = blocks;
      size_bytes_phys = u32 (block_phys * blocks);
      size_mb = s.size_bytes >>> 20;
      initialized = 1;
    }

pub record Result : Type 0 where
  pub ret : ℕ
  pub sfc : Sfc

unfoldable pub conclude : Init → Result
unfolding derived
conclude (chosen s) = record { ret = 0; sfc = derived s }
conclude (unsupported code s) = record { ret = code; sfc = s }

unfoldable pub sfc_init : ℕ → Sfc → Result
unfolding defaults original panda conclude
sfc_init config s =
    let s' = defaults s in
    conclude (
      if controller config == 0
      then original config s'
      else if controller config == 3
      then unsupported 3 s'
      else panda config s')
