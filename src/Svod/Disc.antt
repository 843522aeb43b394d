-- ===== src/Svod/Disc.antt =====
-- The disc image that isoio.c reads (`isoFile`, `baseOffset`, `maxOffset`), and memory buffers.
-- A buffer is a function from offsets to bytes. The C library's file is modelled by its bytes and
-- its size; a seek cannot fail, and a read that reaches past the end fails and leaves the buffer.
use xe_build.Base.{
  ℕ, zero, suc, ◌+◌, ◌-◌, ◌*◌, Bool, true, false, List, [], ◌∷◌, ◌&&◌, length, ltb, leb,
  if◌then◌else◌,
}
use xe_build.Bytes.{byte_at}

abbrev pub Memory : Type 0
Memory = ℕ → ℕ

pub record Disc : Type 0 where
  pub byte : ℕ → ℕ
  pub size : ℕ
  pub base : ℕ

-- What `readIsoData` leaves: the buffer, the file's position and the returned flag.
pub record Read : Type 0 where
  pub mem : Memory
  pub pos : ℕ
  pub success : Bool

abbrev pub sector_size : ℕ
sector_size = 0x800

-- The file's position behind `setIsoSector`.
unfoldable pub set_iso_sector : Disc → ℕ → ℕ
set_iso_sector d sector = sector * sector_size + d.base

-- `fread` of one item of `len` bytes into the buffer at `off`.
unfoldable pub read_iso_data : Disc → ℕ → Memory → ℕ → ℕ → Read
read_iso_data d pos mem off len =
    if leb 1 len && leb (pos + len) d.size
    then record {
      mem = λ k. if leb off k && ltb k (off + len) then d.byte (pos + (k - off)) else mem k;
      pos = pos + len;
      success = true;
    }
    else record { mem = mem; pos = pos; success = false }

-- The `n` bytes of a buffer from `off` on.
unfoldable pub slice : Memory → ℕ → ℕ → List ℕ
slice mem off zero = []
slice mem off (suc n) = mem off ∷ slice mem (off + 1) n

-- `memcpy` of bytes into a buffer.
abbrev pub store : Memory → ℕ → List ℕ → Memory
store mem p xs = λ k. if leb p k && ltb k (p + length xs) then byte_at xs (k - p) else mem k
