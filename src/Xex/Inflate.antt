-- ===== src/Xex/Inflate.antt =====
-- tools/iso2svod/source/xexInflate.c: the memory files that the LZX decoder reads and writes, the
-- chain of blocks that a compressed executable is stored in, and `unpackXexData`. The decoder of
-- mspack is a parameter: a program that asks for bytes and hands bytes over. `int`, `size_t` and
-- `off_t` are 32-bit words; -1 is 2^32 - 1. Allocation is a parameter, on the size.
pub mod Chain
pub mod Stream
pub mod Files
pub mod Confined
use xe_build.Base.{
  ℕ, zero, suc, ◌+◌, ◌-◌, ◌*◌, ◌^◌, Bool, true, false, not, ◌&&◌, ◌||◌, Option, none, some, List,
  [], ◌∷◌, ◌++◌, length, ltb, leb, ◌==◌, ◌!=◌, if◌then◌else◌, u32, sub32,
}
use xe_build.Bytes.{byte_at, get_be16, get_be32}
use xe_build.Svod.Disc.{Memory, slice}

pub get_bit_size : ℕ → ℕ
get_bit_size win_size =
    if win_size == 0x8000
    then 15
    else if win_size == 0x10000
    then 16
    else if win_size == 0x20000
    then 17
    else if win_size == 0x40000
    then 18
    else if win_size == 0x80000
    then 19
    else if win_size == 0x100000
    then 20
    else if win_size == 0x200000
    then 21
    else 0

-- `mem_buf`, where a pointer that is NULL is `none`, and `mem_file`, both without the name.
pub record MemBuf : Type 0 where
  pub data_at : Option Memory
  pub length : ℕ

pub record MemFile : Type 0 where
  pub data_at : Memory
  pub length : ℕ
  pub posn : ℕ

-- A word with its highest bit set is a negative `int`.
abbrev pub is_negative : ℕ → Bool
is_negative w = leb (2 ^ 31) w

abbrev pub minus_one : ℕ
minus_one = 2 ^ 32 - 1

-- `MSPACK_SYS_OPEN_APPEND` is 3. `room` is what `mem_alloc` answers.
abbrev pub open_append : ℕ
open_append = 3

pub mem_open : Bool → MemBuf → ℕ → Option MemFile
mem_open room fn mode = elim fn.data_at [
  | none ↦ none
  | some mem ↦
      if fn.length != 0 && room
      then some (record {
        data_at = mem;
        length = fn.length;
        posn = if mode == open_append then fn.length else 0;
      })
      else none
]

-- `todo` of `mem_read` and `mem_write`.
abbrev pub mem_todo : MemFile → ℕ → ℕ
mem_todo fh bytes =
    let todo = sub32 fh.length fh.posn in
    if not (is_negative todo) && ltb bytes todo then bytes else todo

-- What a read leaves: the file, the returned number and the bytes that were copied.
pub record Got : Type 0 where
  pub file : Option MemFile
  pub ret : ℕ
  pub bytes : List ℕ

pub mem_read : Option MemFile → ℕ → Got
mem_read none bytes = record { file = none; ret = minus_one; bytes = [] }
mem_read (some fh) bytes =
    let todo = mem_todo fh bytes in
    if is_negative bytes then record { file = some fh; ret = minus_one; bytes = [] } else record {
      file = some (record fh { posn = u32 (fh.posn + todo) });
      ret = todo;
      bytes = if is_negative todo then [] else slice fh.data_at fh.posn todo;
    }

pub record Put : Type 0 where
  pub file : Option MemFile
  pub ret : ℕ

pub mem_write : Option MemFile → Memory → ℕ → Put
mem_write none buffer bytes = record { file = none; ret = minus_one }
mem_write (some fh) buffer bytes =
    let todo = mem_todo fh bytes in
    if is_negative bytes then record { file = some fh; ret = minus_one } else record {
      file = some (record fh {
        data_at = λ k.
            if not (is_negative todo) && (leb fh.posn k && ltb k (fh.posn + todo))
            then buffer (k - fh.posn)
            else fh.data_at k;
        posn = u32 (fh.posn + todo);
      });
      ret = todo;
    }

-- `mem_seek` for the modes START (0), CUR (1) and END (2); the result is 0 or 1.
pub seek_target : MemFile → ℕ → ℕ → Option ℕ
seek_target fh offset mode =
    if mode == 0
    then some offset
    else if mode == 1
    then some (u32 (offset + fh.posn))
    else if mode == 2
    then some fh.length
    else none

-- `offset > (off_t) fh->length` on signed words, for an offset that is not negative.
pub mem_seek : Option MemFile → ℕ → ℕ → Put
mem_seek none offset mode = record { file = none; ret = 1 }
mem_seek (some fh) offset mode = elim (seek_target fh offset mode) [
  | none ↦ record { file = some fh; ret = 1 }
  | some o ↦
      if is_negative o || (is_negative fh.length || ltb fh.length o)
      then record { file = some fh; ret = 1 }
      else record { file = some (record fh { posn = o }); ret = 0 }
]

pub mem_tell : Option MemFile → ℕ
mem_tell none = minus_one
mem_tell (some fh) = fh.posn

-- The decoder: it reads, with what it does for each answer, it writes, or it stops with a status.
pub data Decoder : Type 0 where
  ask : ℕ → (ℕ → List ℕ → Decoder) → Decoder
  put : Memory → ℕ → (ℕ → Decoder) → Decoder
  stop : ℕ → Decoder

-- What a run of the decoder leaves in the two files, with its status.
pub record Ran : Type 0 where
  pub status : ℕ
  pub input : Option MemFile
  pub output : Option MemFile

pub run_decoder : Decoder → Option MemFile → Option MemFile → Ran
run_decoder (ask bytes next) i o =
    let g = mem_read i bytes in run_decoder (next g.ret g.bytes) g.file o
run_decoder (put buffer bytes next) i o =
    let p = mem_write o buffer bytes in run_decoder (next p.ret) i p.file
run_decoder (stop status) i o = record { status = status; input = i; output = o }

-- The loop over the parts of a block, and the loop over the blocks, of `rebufInData`. The buffer
-- has `in_len` bytes, which is not tested: `none` is a write behind its end, or the end of the
-- fuel.
pub copy_parts : ℕ → ℕ → Memory → ℕ → List ℕ → Option (List ℕ)
copy_parts in_len zero mem curr_pos buf = none
copy_parts in_len (suc fuel) mem curr_pos buf =
    let inner_len = get_be16 (slice mem curr_pos 2) 0 in
    elim (inner_len != 0) [
      | false ↦ some buf
      | true ↦ elim (leb (length buf + inner_len) in_len) [
        | false ↦ none
        | true ↦
            copy_parts in_len fuel mem (u32 (u32 (curr_pos + 2) + inner_len))
              (buf ++ slice mem (u32 (curr_pos + 2)) inner_len)
      ]
    ]

pub copy_blocks : ℕ → Memory → ℕ → ℕ → ℕ → ℕ → ℕ → List ℕ → Option (List ℕ)
copy_blocks zero mem in_len curr_pos last_pos curr_len next_len buf = none
copy_blocks (suc fuel) mem in_len curr_pos last_pos curr_len next_len buf =
    elim (ltb curr_pos in_len && next_len != 0) [
      | false ↦ some buf
      | true ↦ elim (copy_parts in_len fuel mem (u32 (curr_pos + 0x18)) buf) [
        | none ↦ none
        | some buf' ↦
            let len = get_be32 (slice mem curr_pos 4) 0 in
            let pos = u32 (last_pos + curr_len) in copy_blocks fuel mem in_len pos pos len len buf'
      ]
    ]

-- The buffer that holds a list of bytes.
abbrev pub list_memory : List ℕ → Memory
list_memory xs = λ k. byte_at xs k

-- What a decompression leaves: the result, and the memory at `pOutData`.
pub record Unpacked : Type 0 where
  pub ret : Bool
  pub out : Memory

-- The memory of an output, with what was written through the file that stands for it.
abbrev pub written : Memory → Option MemFile → Memory
written out_data none = out_data
written out_data (some fh) = fh.data_at

module _ (alloc : ℕ → Bool) where
  -- `some none` is NULL; the bytes that are copied are not limited by the buffer's size.
  pub rebuf_in_data : ℕ → Memory → ℕ → ℕ → Option (Option (List ℕ))
  rebuf_in_data fuel mem in_len first_size =
      if alloc in_len
      then elim (copy_blocks fuel mem in_len 0 0 first_size 1 []) [
        | none ↦ none
        | some buf ↦ some (some buf)
      ]
      else some none

  -- `lzxd` stands for `lzxd_init` and what `lzxd_decompress` then does: no decoder if the former
  -- fails. Its arguments are the window's bits and size and the length of the output.
  module _ (lzxd : ℕ → ℕ → ℕ → Option Decoder) where
    pub do_xex_unpack : Memory → ℕ → Memory → ℕ → ℕ → Unpacked
    do_xex_unpack in_data in_len out_data out_len window_size =
        let i = mem_open (alloc 16) (record { data_at = some in_data; length = in_len }) 0 in
        let o = mem_open (alloc 16) (record { data_at = some out_data; length = out_len }) 1 in
        elim (lzxd (get_bit_size window_size) window_size out_len) [
          | none ↦ record { ret = false; out = out_data }
          | some decoder ↦ record {
            ret = true;
            out = written out_data (run_decoder decoder i o).output;
          }
        ]

    pub unpack_xex_data : ℕ → Memory → ℕ → Memory → ℕ → ℕ → ℕ → Option Unpacked
    unpack_xex_data fuel in_data in_len out_data out_len window_size first_data_size =
        elim (rebuf_in_data fuel in_data in_len first_data_size) [
          | none ↦ none
          | some none ↦ some (record { ret = false; out = out_data })
          | some (some rebuf) ↦
              some (do_xex_unpack (list_memory rebuf) (length rebuf) out_data out_len window_size)
        ]
