-- ===== src/Crc.antt =====
-- `crc32buf` of tools/ini_creator/ini_creator/crc32.c: the table-driven CRC-32.
pub mod Table
pub mod Reference
use xe_build.Base.{ℕ, zero, suc, ◌-◌, ◌%◌, ◌^◌, bit_xor, List, [], ◌∷◌, get_or, low_bits, ◌>>>◌}
use xe_build.Crc.Table.{crc_32_tab}

-- The macro `UPDC32`.
unfoldable pub updc32 : ℕ → ℕ → ℕ
updc32 octet crc =
    bit_xor (get_or crc_32_tab (low_bits (bit_xor crc (octet % 2 ^ 8)) 8) 0) (crc >>> 8)

-- The loop over the bytes of the buffer.
unfoldable pub crc_from : ℕ → List ℕ → ℕ
crc_from crc [] = crc
crc_from crc (b ∷ bs) = crc_from (updc32 b crc) bs

-- `~oldcrc32` of 32 bits.
unfoldable pub crc32buf : List ℕ → ℕ
unfolding crc_from updc32
crc32buf buf = 2 ^ 32 - 1 - crc_from 0xffffffff buf
