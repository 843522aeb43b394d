-- ===== src/Bytes/Hex.antt =====
-- The hexadecimal digits of tools/iso2svod/source/util.c. A character is a byte; those from 0x80 on
-- are negative there and fail all the tests, as they do here.
pub mod Laws
use xe_build.Base.{
  ℕ, zero, suc, ◌+◌, ◌-◌, ◌*◌, Bool, true, false, ◌&&◌, List, [], ◌∷◌, ltb, ◌==◌, if◌then◌else◌,
  u32, low_bits, ◌<<<◌,
}
use xe_build.Bytes.{byte_at}

unfoldable pub myatox : ℕ → ℕ
myatox c =
    if ltb 0x60 c && ltb c 0x67
    then c - 0x57
    else if ltb 0x29 c && ltb c 0x40
    then low_bits (c + 0x100 - 0x30) 8
    else if ltb 0x40 c && ltb c 0x47
    then c - 0x37
    else 0xff

unfoldable pub myatox8 : List ℕ → ℕ → ℕ
myatox8 dat p =
    low_bits
      ((low_bits (myatox (byte_at dat p)) 4 <<< 4) + low_bits (myatox (byte_at dat (p + 1))) 4) 8

-- The loop of `myatox32`, with the rounds that are left.
unfoldable pub myatox32_from : ℕ → List ℕ → ℕ → ℕ → ℕ → ℕ
myatox32_from zero dat i retval def_value = retval
myatox32_from (suc left) dat i retval def_value =
    let res = myatox (byte_at dat i) in
    elim (byte_at dat i == 0) [
      | true ↦ retval
      | false ↦ elim (res == 0xff) [
        | true ↦ def_value
        | false ↦
            myatox32_from left dat (i + 1) (u32 (u32 (retval <<< 4) + low_bits res 4)) def_value
      ]
    ]

unfoldable pub myatox32 : List ℕ → ℕ → ℕ
myatox32 dat def_value = myatox32_from 16 dat 0 0 def_value

pub myatol : ℕ → ℕ
myatol c = if ltb 0x40 c && ltb c 0x5a then c + 0x20 else c

-- The loop of `validateString`, for a string without its end mark.
unfoldable pub valid_chars : List ℕ → Bool
valid_chars [] = true
valid_chars (c ∷ cs) = if myatox c == 0xff then false else valid_chars cs

unfoldable pub validate_string : List ℕ → Bool
validate_string [] = false
validate_string (c ∷ cs) = valid_chars (c ∷ cs)
