-- ===== src/Bytes/Smc.antt =====
-- `calcConfigSum` and `checkSmcConfigSum` of tools/iso2svod/source/util.c.
pub mod Laws
use xe_build.Base.{
  ℕ, zero, suc, ◌+◌, ◌-◌, ◌*◌, ◌/◌, ◌%◌, ◌^◌, bit_or, Bool, true, false, List, low_bits, ◌<<<◌,
  ◌!=◌, if◌then◌else◌, u32,
}
use xe_build.Bytes.{byte_at}

-- The loop at index `i` of the buffer, with `left` rounds to go and the sum so far.
unfoldable pub sum_from : List ℕ → ℕ → ℕ → ℕ → ℕ
sum_from buf zero i sum = sum
sum_from buf (suc left) i sum = sum_from buf left (i + 1) (u32 (sum + low_bits (byte_at buf i) 8))

-- `~sum & 0xFFFF`, with its two bytes swapped into the upper half of the word.
abbrev pub swap_high : ℕ → ℕ
swap_high s = u32 (((s / 2 ^ 8 * 2 ^ 8) <<< 8) + (low_bits s 8 <<< 24))

unfoldable pub calc_config_sum : List ℕ → ℕ
calc_config_sum buf = swap_high (low_bits (2 ^ 32 - 1 - sum_from buf 252 0x10 0) 16)

unfoldable pub check_smc_config_sum : List ℕ → Bool
check_smc_config_sum buf =
    let src = bit_or (low_bits (byte_at buf 0) 8 <<< 24) (low_bits (byte_at buf 1) 8 <<< 16) in
    if calc_config_sum buf != src then false else true
