-- ===== src/Tests/Util.antt =====
-- The theorems on util.c and crc32.c at concrete buffers.
use xe_build.Base.{
  ℕ, ◌+◌, ◌-◌, ◌^◌, ◌<◌, ◌≡◌, refl, true, false, none, some, List, [], ◌∷◌, arith, replicate, set,
}
use xe_build.Bytes.Search.{find_inst}
use xe_build.Bytes.Search.Laws.{MatchesAt, find_inst_lem}
use xe_build.Bytes.Smc.{check_smc_config_sum, calc_config_sum, sum_from}
use xe_build.Bytes.Smc.Laws.{check_smc_config_sum_detects}
use xe_build.Crc.{crc32buf}
use xe_build.Crc.Reference.{crc_bitwise, crc32buf-bitwise}

abbrev buffer : List ℕ
buffer = 1 ∷ 2 ∷ 3 ∷ 4 ∷ 5 ∷ 6 ∷ 7 ∷ 8 ∷ 9 ∷ []

find_inst_lem_example :
    ((i : ℕ)
      → find_inst buffer 9 (4 ∷ 5 ∷ []) 2 ≡ some i
      → (i + 2 < 9)
        × MatchesAt buffer (4 ∷ 5 ∷ []) 2 i
        × ((m : ℕ) → m < i → MatchesAt buffer (4 ∷ 5 ∷ []) 2 m → ⊥))
    × (find_inst buffer 9 (4 ∷ 5 ∷ []) 2 ≡ none
        → (i : ℕ) → i + 2 < 9
        → MatchesAt buffer (4 ∷ 5 ∷ []) 2 i
        → ⊥)
find_inst_lem_example = find_inst_lem buffer 9 (4 ∷ 5 ∷ []) 2 (omega arith)

-- A configuration of zeros with its sum.
abbrev config_block : List ℕ
config_block = 0xff ∷ 0xff ∷ replicate 298 0

config_block_sum : check_smc_config_sum config_block ≡ true
unfolding check_smc_config_sum calc_config_sum sum_from
config_block_sum = refl

check_smc_config_sum_detects_example : check_smc_config_sum (set config_block 0x20 7) ≡ false
check_smc_config_sum_detects_example =
    check_smc_config_sum_detects config_block 0x20 7 config_block_sum (omega arith) (omega arith)
      (ground arith) (omega arith)

crc32buf-bitwise_example : crc32buf buffer ≡ 2 ^ 32 - 1 - crc_bitwise 0xffffffff buffer
crc32buf-bitwise_example = crc32buf-bitwise buffer
