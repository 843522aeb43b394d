-- ===== src/Bytes.antt =====
-- tools/iso2svod/source/util.c: reads and writes of words in a byte buffer. A pointer is a
-- buffer with an offset. A read past the end of a buffer gives 0 and a write there does nothing:
-- the program leaves both undefined, and the laws ask for buffers that are long enough.
pub mod Laws
pub mod Hex
pub mod Search
pub mod Smc
use xe_build.Base.{
  ℕ, zero, suc, ◌+◌, ◌-◌, ◌*◌, ◌/◌, ◌%◌, ◌^◌, bit_or, Bool, true, false, List, [], ◌∷◌, ◌++◌,
  get_or, set, low_bits, ◌<<<◌, ◌>>>◌, ◌!=◌, if◌then◌else◌, u16, u32, u64,
}

abbrev pub byte_at : List ℕ → ℕ → ℕ
byte_at buf i = get_or buf i 0

unfoldable pub get_le16 : List ℕ → ℕ → ℕ
get_le16 buf p = bit_or (low_bits (byte_at buf (p + 1)) 8 <<< 8) (low_bits (byte_at buf p) 8)

unfoldable pub get_le32 : List ℕ → ℕ → ℕ
get_le32 buf p =
    bit_or
      (bit_or
        (bit_or (low_bits (byte_at buf (p + 3)) 8 <<< 24) (low_bits (byte_at buf (p + 2)) 8 <<< 16))
        (low_bits (byte_at buf (p + 1)) 8 <<< 8))
      (low_bits (byte_at buf p) 8)

unfoldable pub get_be16 : List ℕ → ℕ → ℕ
get_be16 buf p = bit_or (low_bits (byte_at buf p) 8 <<< 8) (low_bits (byte_at buf (p + 1)) 8)

unfoldable pub get_be32 : List ℕ → ℕ → ℕ
get_be32 buf p =
    bit_or
      (bit_or (bit_or (low_bits (byte_at buf p) 8 <<< 24) (low_bits (byte_at buf (p + 1)) 8 <<< 16))
        (low_bits (byte_at buf (p + 2)) 8 <<< 8))
      (low_bits (byte_at buf (p + 3)) 8)

unfoldable pub get_be64 : List ℕ → ℕ → ℕ
get_be64 buf p = bit_or (u64 (get_be32 buf p <<< 32)) (get_be32 buf (p + 4))

unfoldable pub set_be16 : List ℕ → ℕ → ℕ → List ℕ
set_be16 buf p val = set (set buf p (low_bits (val >>> 8) 8)) (p + 1) (low_bits val 8)

unfoldable pub set_be32 : List ℕ → ℕ → ℕ → List ℕ
set_be32 buf p val =
    set
      (set (set (set buf p (low_bits (val >>> 24) 8)) (p + 1) (low_bits (val >>> 16) 8)) (p + 2)
        (low_bits (val >>> 8) 8))
      (p + 3) (low_bits val 8)

unfoldable pub set_be64 : List ℕ → ℕ → ℕ → List ℕ
set_be64 buf p val = set_be32 (set_be32 buf p (low_bits (val >>> 32) 32)) (p + 4) (low_bits val 32)

-- The bytes of a number, the highest first: what a field holds into which the swapped number goes.
abbrev pub bytes16 : ℕ → List ℕ
bytes16 n = n / 2 ^ 8 % 256 ∷ n % 256 ∷ []

abbrev pub bytes32 : ℕ → List ℕ
bytes32 n = n / 2 ^ 24 % 256 ∷ n / 2 ^ 16 % 256 ∷ n / 2 ^ 8 % 256 ∷ n % 256 ∷ []

abbrev pub bytes64 : ℕ → List ℕ
bytes64 n = bytes32 (n / 2 ^ 32) ++ bytes32 n

-- The macros of tools/ini_creator/ini_creator/types.h, which add the four parts.
unfoldable pub bswap16 : ℕ → ℕ
bswap16 x = low_bits x 8 * 2 ^ 8 + low_bits (x / 2 ^ 8) 8

unfoldable pub bswap32 : ℕ → ℕ
bswap32 x =
    low_bits x 8 * 2 ^ 24
    + low_bits (x / 2 ^ 8) 8 * 2 ^ 16
    + low_bits (x / 2 ^ 16) 8 * 2 ^ 8
    + low_bits (x / 2 ^ 24) 8

-- The loop of `checkZeros` from index `i`, with `left` rounds to go.
unfoldable pub check_zeros_from : List ℕ → ℕ → ℕ → Bool
check_zeros_from buf zero i = true
check_zeros_from buf (suc left) i =
    if byte_at buf i != 0 then false else check_zeros_from buf left (i + 1)

unfoldable pub check_zeros : List ℕ → ℕ → ℕ → Bool
check_zeros buf p len = check_zeros_from buf len p

-- The loop of `memcpyrev`: `i` goes up while `j` comes down, with `left` rounds to go.
pub memcpyrev_from : List ℕ → ℕ → ℕ → ℕ → List ℕ → List ℕ
memcpyrev_from src zero i j dest = dest
memcpyrev_from src (suc left) i j dest =
    memcpyrev_from src left (i + 1) (j - 1) (set dest i (byte_at src j))

unfoldable pub memcpyrev : List ℕ → List ℕ → ℕ → List ℕ
memcpyrev dest src len = memcpyrev_from src len 0 (len - 1) dest
