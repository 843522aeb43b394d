-- ===== src/Bytes/Laws.antt =====
-- What the word accessors of util.c read and write.
use xe_build.Base.{
  ℕ, zero, suc, ◌+◌, ◌-◌, ◌*◌, ◌/◌, ◌%◌, ◌^◌, ◌≤◌, ◌<◌, bit_or, ◌≡◌, ◌≢◌, ◌↔◌, refl, true, List,
  length, length-set, ◌⊎◌, leb, ltb, ◌&&◌, if◌then◌else◌, get_or-set_self, get_or-set_ne, set,
  arith, low_bits,
}
use xe_build.Base.Bits.{bit_or_apart}
use xe_build.Bytes.{
  byte_at, get_le16, get_le32, get_be16, get_be32, get_be64, set_be16, set_be32, set_be64, bswap16,
  bswap32, check_zeros, check_zeros_from, memcpyrev, memcpyrev_from,
}

-- Four bytes joined by `|` at their places.
or4 :
    (a b c d : ℕ)
    → a < 256
    → b < 256
    → c < 256
    → d < 256
    → bit_or (bit_or (bit_or (a * 2 ^ 24) (b * 2 ^ 16)) (c * 2 ^ 8)) d
      ≡ a * 2 ^ 24 + b * 2 ^ 16 + c * 2 ^ 8 + d
or4 a b c d ha hb hc hd =
    rw
      (
        bit_or_apart 24 (a * 2 ^ 24) (b * 2 ^ 16) (omega arith) (omega arith),
        bit_or_apart 16 (a * 2 ^ 24 + b * 2 ^ 16) (c * 2 ^ 8) (omega arith) (omega arith),
        bit_or_apart 8 (a * 2 ^ 24 + b * 2 ^ 16 + c * 2 ^ 8) d (omega arith) (omega arith),
      )
      refl

pub get_be32_sum :
    (buf : List ℕ) (p : ℕ)
    → get_be32 buf p
      ≡ low_bits (byte_at buf p) 8 * 2 ^ 24
        + low_bits (byte_at buf (p + 1)) 8 * 2 ^ 16
        + low_bits (byte_at buf (p + 2)) 8 * 2 ^ 8
        + low_bits (byte_at buf (p + 3)) 8
unfolding get_be32
get_be32_sum buf p = or4 _ _ _ _ (omega arith) (omega arith) (omega arith) (omega arith)

pub get_le32_sum :
    (buf : List ℕ) (p : ℕ)
    → get_le32 buf p
      ≡ low_bits (byte_at buf (p + 3)) 8 * 2 ^ 24
        + low_bits (byte_at buf (p + 2)) 8 * 2 ^ 16
        + low_bits (byte_at buf (p + 1)) 8 * 2 ^ 8
        + low_bits (byte_at buf p) 8
unfolding get_le32
get_le32_sum buf p = or4 _ _ _ _ (omega arith) (omega arith) (omega arith) (omega arith)

pub get_be16_sum :
    (buf : List ℕ) (p : ℕ)
    → get_be16 buf p ≡ low_bits (byte_at buf p) 8 * 2 ^ 8 + low_bits (byte_at buf (p + 1)) 8
unfolding get_be16
get_be16_sum buf p = bit_or_apart 8 _ _ (omega arith) (omega arith)

pub get_le16_sum :
    (buf : List ℕ) (p : ℕ)
    → get_le16 buf p ≡ low_bits (byte_at buf (p + 1)) 8 * 2 ^ 8 + low_bits (byte_at buf p) 8
unfolding get_le16
get_le16_sum buf p = bit_or_apart 8 _ _ (omega arith) (omega arith)

pub get_be64_sum :
    (buf : List ℕ) (p : ℕ) → get_be64 buf p ≡ get_be32 buf p * 2 ^ 32 + get_be32 buf (p + 4)
unfolding get_be64
get_be64_sum buf p =
    let hi = get_be32_sum buf p in
    let lo = get_be32_sum buf (p + 4) in
    let fits : get_be32 buf p * 2 ^ 32 % 2 ^ 64 ≡ get_be32 buf p * 2 ^ 32 = omega (arith, hi) in
    rw fits (bit_or_apart 32 _ _ (omega arith) (omega (arith, lo)))

-- A byte is what the nearest write to its place stored.
set_get : (xs : List ℕ) (i j v : ℕ) → j ≢ i → byte_at (set xs i v) j ≡ byte_at xs j
set_get xs i j v ne = get_or-set_ne xs i j v 0 (λ e. ne (omega (arith, e)))

pub length-set_be32 : (buf : List ℕ) (p v : ℕ) → length (set_be32 buf p v) ≡ length buf
unfolding set_be32
length-set_be32 buf p v = rw (length-set, length-set, length-set, length-set) refl

-- The four bytes that `setBe32` stores.
pub set_be32_bytes :
    (buf : List ℕ) (p v : ℕ)
    → p + 3 < length buf
    → (byte_at (set_be32 buf p v) p ≡ v / 2 ^ 24 % 256)
      × (byte_at (set_be32 buf p v) (p + 1) ≡ v / 2 ^ 16 % 256)
      × (byte_at (set_be32 buf p v) (p + 2) ≡ v / 2 ^ 8 % 256)
      × (byte_at (set_be32 buf p v) (p + 3) ≡ v % 256)
unfolding set_be32
set_be32_bytes buf p v h = (
  rw
      (
        set_get _ (p + 3) p _ (omega arith),
        set_get _ (p + 2) p _ (omega arith),
        set_get _ (p + 1) p _ (omega arith),
      )
      (get_or-set_self buf p _ 0 (omega arith)),
  rw (set_get _ (p + 3) (p + 1) _ (omega arith), set_get _ (p + 2) (p + 1) _ (omega arith))
      (get_or-set_self _ (p + 1) _ 0 (rw length-set (omega arith))),
  rw (set_get _ (p + 3) (p + 2) _ (omega arith))
      (get_or-set_self _ (p + 2) _ 0 (rw (length-set, length-set) (omega arith))),
  get_or-set_self _ (p + 3) _ 0 (rw (length-set, length-set, length-set) (omega arith)),
)

-- `setBe32` touches no byte outside its four.
pub set_be32_frame :
    (buf : List ℕ) (p v j : ℕ)
    → (j < p) ⊎ (p + 4 ≤ j)
    → byte_at (set_be32 buf p v) j ≡ byte_at buf j
unfolding set_be32
set_be32_frame buf p v j h =
    rw
      (
        set_get _ (p + 3) j _ (omega arith),
        set_get _ (p + 2) j _ (omega arith),
        set_get _ (p + 1) j _ (omega arith),
        set_get _ p j _ (omega arith),
      )
      refl

-- A word of 32 bits that `setBe32` stores is what `getBe32` reads back, and the buffer keeps its
-- length.
pub get_be32-set_be32 :
    (buf : List ℕ) (p v : ℕ)
    → p + 3 < length buf
    → v < 2 ^ 32
    → (get_be32 (set_be32 buf p v) p ≡ v) × (length (set_be32 buf p v) ≡ length buf)
get_be32-set_be32 buf p v h small = (
  omega (arith, get_be32_sum (set_be32 buf p v) p, set_be32_bytes buf p v h),
  length-set_be32 buf p v,
)

get_be32_frame :
    (buf : List ℕ) (p q v : ℕ)
    → (p + 4 ≤ q) ⊎ (q + 4 ≤ p)
    → get_be32 (set_be32 buf p v) q ≡ get_be32 buf q
get_be32_frame buf p q v h = omega (
  arith,
  get_be32_sum (set_be32 buf p v) q,
  get_be32_sum buf q,
  set_be32_frame buf p v q (ground arith),
  set_be32_frame buf p v (q + 1) (ground arith),
  set_be32_frame buf p v (q + 2) (ground arith),
  set_be32_frame buf p v (q + 3) (ground arith),
)

-- A word of 64 bits that `setBe64` stores is what `getBe64` reads back.
pub get_be64-set_be64 :
    (buf : List ℕ) (p v : ℕ) → p + 7 < length buf → v < 2 ^ 64 → get_be64 (set_be64 buf p v) p ≡ v
unfolding set_be64
get_be64-set_be64 buf p v h small =
    let low = low_bits v 32 in
    let first = set_be32 buf p (low_bits (v / 2 ^ 32) 32) in
    omega (
      arith,
      get_be64_sum (set_be32 first (p + 4) low) p,
      get_be32_frame first (p + 4) p low (ground arith),
      get_be32-set_be32 buf p (low_bits (v / 2 ^ 32) 32) (omega arith) (omega arith),
      get_be32-set_be32 first (p + 4) low
          (omega (arith, length-set_be32 buf p (low_bits (v / 2 ^ 32) 32))) (omega arith),
    )

-- A word of 16 bits that `setBe16` stores is what `getBe16` reads back.
get_be16-set_be16 :
    (buf : List ℕ) (p v : ℕ) → p + 1 < length buf → v < 2 ^ 16 → get_be16 (set_be16 buf p v) p ≡ v
unfolding set_be16
get_be16-set_be16 buf p v h small = omega (
  arith,
  get_be16_sum (set (set buf p (low_bits (v / 2 ^ 8) 8)) (p + 1) (low_bits v 8)) p,
  set_get (set buf p (low_bits (v / 2 ^ 8) 8)) (p + 1) p (low_bits v 8) (omega arith),
  get_or-set_self buf p (low_bits (v / 2 ^ 8) 8) 0 (omega arith),
  get_or-set_self (set buf p (low_bits (v / 2 ^ 8) 8)) (p + 1) (low_bits v 8) 0
      (rw length-set (omega arith)),
)

-- Swapping the bytes of what one accessor reads gives what the accessor of the other order reads,
-- for words of 32 and of 16 bits, and swapping twice gives a word back.
pub bswap-get :
    (buf : List ℕ) (p : ℕ)
    → (bswap32 (get_be32 buf p) ≡ get_le32 buf p)
      × (bswap32 (get_le32 buf p) ≡ get_be32 buf p)
      × (bswap16 (get_be16 buf p) ≡ get_le16 buf p)
      × (bswap16 (get_le16 buf p) ≡ get_be16 buf p)
      × ((x : ℕ) → x < 2 ^ 32 → bswap32 (bswap32 x) ≡ x)
unfolding bswap32 bswap16
bswap-get buf p = (
  omega (arith, get_be32_sum buf p, get_le32_sum buf p),
  omega (arith, get_be32_sum buf p, get_le32_sum buf p),
  omega (arith, get_be16_sum buf p, get_le16_sum buf p),
  omega (arith, get_be16_sum buf p, get_le16_sum buf p),
  λ x h. omega arith,
)

check_zeros_from_sound :
    (buf : List ℕ) (left i j : ℕ)
    → check_zeros_from buf left i ≡ true
    → i ≤ j
    → j < i + left
    → byte_at buf j ≡ 0
unfolding check_zeros_from
check_zeros_from_sound buf zero i j h lo hi = absurd (omega arith)
check_zeros_from_sound buf (suc left) i j h lo hi =
    ground (arith, check_zeros_from_sound buf left (i + 1) j)

check_zeros_from_complete :
    (buf : List ℕ) (left i : ℕ)
    → ((j : ℕ) → i ≤ j → j < i + left → byte_at buf j ≡ 0)
    → check_zeros_from buf left i ≡ true
unfolding check_zeros_from
check_zeros_from_complete buf zero i h = refl
check_zeros_from_complete buf (suc left) i h = ground (
  arith,
  h i,
  check_zeros_from_complete buf left (i + 1) (λ j lo hi. h j (omega arith) (omega arith)),
)

-- `checkZeros` answers yes exactly when all of the `len` bytes from `p` on are 0.
pub check_zeros_iff :
    (buf : List ℕ) (p len : ℕ)
    → (check_zeros buf p len ≡ true) ↔ ((j : ℕ) → p ≤ j → j < p + len → byte_at buf j ≡ 0)
unfolding check_zeros
check_zeros_iff buf p len =
    (λ h j. check_zeros_from_sound buf len p j h, check_zeros_from_complete buf len p)

-- The state of the loop of `memcpyrev`: bytes below `i` are done.
memcpyrev_from_lem :
    (src : List ℕ) (len left i j : ℕ) (dest : List ℕ)
    → i + left ≡ len
    → len ≤ length dest
    → j ≡ left - 1
    → (k : ℕ)
    → byte_at (memcpyrev_from src left i j dest) k
      ≡ (if leb i k && ltb k len then byte_at src (len - 1 - k) else byte_at dest k)
unfolding memcpyrev_from
memcpyrev_from_lem src len zero i j dest e fits ej k = ground arith
memcpyrev_from_lem src len (suc left) i j dest e fits ej k = ground (
  arith,
  memcpyrev_from_lem src len left (i + 1) (j - 1) (set dest i (byte_at src j)) (omega arith)
      (rw length-set fits) (omega arith) k,
  get_or-set_self dest i (byte_at src j) 0,
  get_or-set_ne dest i k (byte_at src j) 0,
)

-- `memcpyrev` puts the first `len` bytes of the source into the destination in reverse order, and
-- leaves the bytes behind them alone, if the destination has room.
pub memcpyrev_lem :
    (dest src : List ℕ) (len : ℕ)
    → len ≤ length dest
    → (k : ℕ)
    → byte_at (memcpyrev dest src len) k
      ≡ (if ltb k len then byte_at src (len - 1 - k) else byte_at dest k)
unfolding memcpyrev
memcpyrev_lem dest src len h k =
    ground (arith, memcpyrev_from_lem src len len 0 (len - 1) dest (omega arith) h refl k)
