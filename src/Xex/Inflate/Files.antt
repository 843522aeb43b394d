-- ===== src/Xex/Inflate/Files.antt =====
-- What a memory file answers.
use xe_build.Base.{
  ℕ, ◌+◌, ◌-◌, ◌^◌, ◌≤◌, ◌<◌, ◌≡◌, refl, ap, false, ◌&&◌, ◌||◌, some, arith, min, ltb, leb,
  if◌then◌else◌, u32,
}
use xe_build.Svod.Disc.{Memory, slice}
use xe_build.Svod.Writer.Blocks.{slice_ext}
use xe_build.Xex.Inflate.{
  MemFile, is_negative, mem_todo, mem_read, mem_write, seek_target, mem_seek, mem_tell,
}

-- A file of less than 2 GB whose position lies within it.
abbrev pub IsWithin : MemFile → Type 0
IsWithin fh = (fh.length < 2 ^ 31) × (fh.posn ≤ fh.length)

-- The number of bytes that a request gets.
pub mem_todo_within :
    (fh : MemFile) (bytes : ℕ)
    → IsWithin fh
    → (mem_todo fh bytes ≤ bytes) × (fh.posn + mem_todo fh bytes ≤ fh.length)
mem_todo_within fh bytes h = ground (arith, h.0, h.1)

-- What a file in memory answers to a request, and what a failed one leaves.
abbrev pub file : Memory → ℕ → ℕ → MemFile
file mem length posn = record { data_at = mem; length = length; posn = posn }

pub mem_read_within :
    (mem : Memory) (len pos bytes : ℕ)
    → IsWithin (file mem len pos)
    → is_negative bytes ≡ false
    → let todo = mem_todo (file mem len pos) bytes in
      mem_read (some (file mem len pos)) bytes
      ≡ record { file = some (file mem len (pos + todo)); ret = todo; bytes = slice mem pos todo }
unfolding mem_read
mem_read_within mem len pos bytes h sign =
    let t = mem_todo (file mem len pos) bytes in
    let most = mem_todo_within (file mem len pos) bytes h in
    let plus : is_negative t ≡ false = ground (arith, most, h.0) in
    let next : u32 (pos + t) ≡ pos + t = omega (arith, most, h.0) in rw (sign, plus, next) refl

mem_write_within :
    (mem buffer : Memory) (len pos bytes : ℕ)
    → IsWithin (file mem len pos)
    → is_negative bytes ≡ false
    → let todo = mem_todo (file mem len pos) bytes in
      mem_write (some (file mem len pos)) buffer bytes ≡ record {
        file = some (
            file
              (λ k. if leb pos k && ltb k (pos + todo) then buffer (k - pos) else mem k)
              len
              (pos + todo));
        ret = todo;
      }
unfolding mem_write
mem_write_within mem buffer len pos bytes h sign =
    let t = mem_todo (file mem len pos) bytes in
    let most = mem_todo_within (file mem len pos) bytes h in
    let plus : is_negative t ≡ false = ground (arith, most, h.0) in
    let next : u32 (pos + t) ≡ pos + t = omega (arith, most, h.0) in rw (sign, plus, next) refl

mem_seek_within :
    (mem : Memory) (len pos target : ℕ)
    → len < 2 ^ 31
    → target ≤ len
    → mem_seek (some (file mem len pos)) target 0
      ≡ record { file = some (file mem len target); ret = 0 }
unfolding mem_seek seek_target
mem_seek_within mem len pos target small le =
    let inside : (is_negative target || (is_negative len || ltb len target)) ≡ false =
      ground arith in
    rw inside refl

-- What is written to a file of less than 2 GB from a position within it is read again behind a seek
-- to that position: as many bytes as were handed over, and at most those up to the file's end. All
-- three calls succeed, and the position is behind what was read.
pub mem_read-mem_write :
    (mem buffer : Memory) (len pos bytes : ℕ)
    → len < 2 ^ 31
    → pos ≤ len
    → bytes < 2 ^ 31
    → let w = mem_write (some (file mem len pos)) buffer bytes in
      let s = mem_seek w.file pos 0 in
      let r = mem_read s.file bytes in
      (w.ret ≡ min bytes (len - pos))
      × (s.ret ≡ 0)
      × (r.ret ≡ w.ret)
      × (r.bytes ≡ slice buffer 0 w.ret)
      × (mem_tell r.file ≡ pos + w.ret)
unfolding mem_tell
mem_read-mem_write mem buffer len pos bytes small le plus =
    let fh = file mem len pos in
    let t = mem_todo fh bytes in
    let sign : is_negative bytes ≡ false = ground arith in
    let most = mem_todo_within fh bytes (small, le) in
    let mem' : Memory = λ k. if leb pos k && ltb k (pos + t) then buffer (k - pos) else mem k in
    let again : slice mem' pos t ≡ slice buffer 0 t = slice_ext mem' buffer pos 0 t (λ k lt.
      let place : pos + k - pos ≡ 0 + k = omega arith in ground (arith, lt, ap buffer place)) in
    let size : t ≡ min bytes (len - pos) = ground arith in
    rw
      (
        mem_write_within mem buffer len pos bytes (small, le) sign,
        mem_seek_within mem' len (pos + t) pos small le,
        mem_read_within mem' len pos bytes (small, le) sign,
      )
      (size, refl, refl, again, refl)
