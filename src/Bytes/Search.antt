-- ===== src/Bytes/Search.antt =====
-- `findInst`, `findInstExists` and `checkSmcHacked` of tools/iso2svod/source/util.c.
pub mod Laws
use mathlib.Core.Option
use xe_build.Base.{
  ℕ, zero, suc, ◌+◌, ◌-◌, Bool, true, false, ◌&&◌, ◌||◌, Option, none, some, List, [], ◌∷◌, ◌==◌,
  ◌!=◌, if◌then◌else◌,
}
use xe_build.Bytes.{byte_at}

-- The inner loop at `j`, with `left` rounds to go: the value of `j` behind it. A byte that differs
-- sets `j` past the end, and the loop's own step adds one more.
pub inner : List ℕ → List ℕ → ℕ → ℕ → ℕ → ℕ → ℕ
inner bytes fbytes fblen i zero j = j
inner bytes fbytes fblen i (suc left) j =
    if byte_at bytes (i + j) != byte_at fbytes j
    then fblen + 2
    else inner bytes fbytes fblen i left (j + 1)

-- The outer loop at `i`, with `left` rounds to go: the place that is returned, if any.
pub find_from : List ℕ → List ℕ → ℕ → ℕ → ℕ → Option ℕ
find_from bytes fbytes fblen zero i = none
find_from bytes fbytes fblen (suc left) i =
    let rest = find_from bytes fbytes fblen left (i + 1) in
    if byte_at bytes i == byte_at fbytes 0 && inner bytes fbytes fblen i fblen 0 == fblen
    then some i
    else rest

-- `dataLen - fblen` is an `int`, and the loop does not run where it is not positive.
unfoldable pub find_inst : List ℕ → ℕ → List ℕ → ℕ → Option ℕ
find_inst bytes data_len fbytes fblen = find_from bytes fbytes fblen (data_len - fblen) 0

unfoldable pub find_inst_exists : List ℕ → ℕ → List ℕ → ℕ → Bool
find_inst_exists bytes data_len fbytes fblen = elim (find_inst bytes data_len fbytes fblen) [
  | some i ↦ true
  | none ↦ false
]

abbrev pub cyg_bytes : List ℕ
cyg_bytes = 0x78 ∷ 0xba ∷ []

abbrev pub jtag_bytes : List ℕ
jtag_bytes = 0xd0 ∷ 0 ∷ 0 ∷ 0x1b ∷ []

unfoldable pub check_smc_hacked : List ℕ → ℕ → Bool
check_smc_hacked smc_data len =
    find_inst_exists smc_data len cyg_bytes 2 || find_inst_exists smc_data len jtag_bytes 4
