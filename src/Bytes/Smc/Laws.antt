-- ===== src/Bytes/Smc/Laws.antt =====
-- What the checksum of the SMC configuration accepts and what it detects.
use xe_build.Base.{
  ℕ, zero, suc, ◌+◌, ◌*◌, ◌%◌, ◌^◌, ◌≤◌, ◌<◌, ◌≡◌, ◌≢◌, ◌↔◌, ◌⊎◌, refl, true, false, List, length,
  set, arith, low_bits, get_or-set_self, get_or-set_ne,
}
use xe_build.Base.Bits.{bit_or_apart}
use xe_build.Bytes.{byte_at}
use xe_build.Bytes.Smc.{sum_from, calc_config_sum, check_smc_config_sum}

-- The plain sum of `left` bytes from `i` on.
pub body_sum : List ℕ → ℕ → ℕ → ℕ
body_sum buf zero i = 0
body_sum buf (suc left) i = low_bits (byte_at buf i) 8 + body_sum buf left (i + 1)

body_sum-le : (buf : List ℕ) (left i : ℕ) → body_sum buf left i ≤ 255 * left
unfolding body_sum
body_sum-le buf zero i = omega arith
body_sum-le buf (suc left) i = omega (arith, body_sum-le buf left (i + 1))

sum_from-eq-body_sum :
    (buf : List ℕ) (left i sum : ℕ)
    → sum + 255 * left < 2 ^ 32
    → sum_from buf left i sum ≡ sum + body_sum buf left i
unfolding sum_from body_sum
sum_from-eq-body_sum buf zero i sum h = omega arith
sum_from-eq-body_sum buf (suc left) i sum h =
    let b = low_bits (byte_at buf i) 8 in
    omega (arith, sum_from-eq-body_sum buf left (i + 1) ((sum + b) % 2 ^ 32) (omega arith))

body_sum-set_outside :
    (buf : List ℕ) (left i k v : ℕ)
    → (k < i) ⊎ (i + left ≤ k)
    → body_sum (set buf k v) left i ≡ body_sum buf left i
unfolding body_sum
body_sum-set_outside buf zero i k v h = refl
body_sum-set_outside buf (suc left) i k v h =
    ground (arith, get_or-set_ne buf k i v 0, body_sum-set_outside buf left (i + 1) k v)

body_sum-set :
    (buf : List ℕ) (left i k v : ℕ)
    → i ≤ k
    → k < i + left
    → k < length buf
    → body_sum (set buf k v) left i + low_bits (byte_at buf k) 8
      ≡ body_sum buf left i + low_bits v 8
unfolding body_sum
body_sum-set buf zero i k v lo hi fits = absurd (omega arith)
body_sum-set buf (suc left) i k v lo hi fits = ground (
  arith,
  get_or-set_self buf k v 0,
  get_or-set_ne buf k i v 0,
  body_sum-set_outside buf left (i + 1) k v,
  body_sum-set buf left (i + 1) k v,
)

-- The first two bytes, low byte first, as the check reads them.
abbrev pub stored_sum : List ℕ → ℕ
stored_sum buf = low_bits (byte_at buf 0) 8 + low_bits (byte_at buf 1) 8 * 256

-- `checkSmcConfigSum` accepts exactly the blocks whose first two bytes, low byte first, make
-- 0xFFFF together with the sum of the 252 bytes from 0x10 on. None of the 32-bit sums wraps.
pub check_smc_config_sum_iff :
    (buf : List ℕ)
    → (check_smc_config_sum buf ≡ true) ↔ (stored_sum buf + body_sum buf 252 0x10 ≡ 0xffff)
unfolding check_smc_config_sum calc_config_sum
check_smc_config_sum_iff buf =
    let total = sum_from-eq-body_sum buf 252 0x10 0 (omega arith) in
    let bound = body_sum-le buf 252 0x10 in
    let joined =
      bit_or_apart 24 (low_bits (byte_at buf 0) 8 * 2 ^ 24) (low_bits (byte_at buf 1) 8 * 2 ^ 16)
        (omega arith) (omega arith) in
    (λ h. ground (arith, total, bound, joined), λ h. ground (arith, total, bound, joined))

-- A block that passes the check fails it once any single byte of the summed part is changed.
pub check_smc_config_sum_detects :
    (buf : List ℕ) (k v : ℕ)
    → check_smc_config_sum buf ≡ true
    → 0x10 ≤ k
    → k < 0x10 + 252
    → k < length buf
    → low_bits v 8 ≢ low_bits (byte_at buf k) 8
    → check_smc_config_sum (set buf k v) ≡ false
check_smc_config_sum_detects buf k v h lo hi fits ne = ground (
  arith,
  (check_smc_config_sum_iff buf).0 h,
  (check_smc_config_sum_iff (set buf k v)).0,
  body_sum-set buf 252 0x10 k v lo hi fits,
  get_or-set_ne buf k 0 v 0,
  get_or-set_ne buf k 1 v 0,
)
