-- ===== src/Boot.antt =====
-- reboot_core/main.c: the code that takes over the console at start-up. Memory is a function from
-- byte addresses to words; every access of this file is aligned to four bytes, and a copy of `n`
-- bytes is one of `n / 4` words. The SMC's replies are a list, one entry for each poll.
pub mod Vectors
pub mod Smc
pub mod Patch
pub mod Start
use xe_build.Base.{ℕ, zero, suc, ◌+◌, ◌==◌, if◌then◌else◌}

abbrev pub Words : Type 0
Words = ℕ → ℕ

-- A store of one word.
abbrev pub store : Words → ℕ → ℕ → Words
store mem a w b = if b == a then w else mem b

-- `_memcpy32` of `count` words.
unfoldable pub memcpy32 : Words → ℕ → ℕ → ℕ → Words
memcpy32 mem dest src zero = mem
memcpy32 mem dest src (suc count) = memcpy32 (store mem dest (mem src)) (dest + 4) (src + 4) count
