-- ===== src/Tests/Hex.antt =====
-- The theorems on hexadecimal strings at `1aF` and `-3`.
use xe_build.Base.{
  ℕ, zero, suc, ◌≡◌, ◌≢◌, ◌↔◌, refl, true, false, List, [], ◌∷◌, length, arith, All,
}
use xe_build.Bytes.Hex.{myatox32, myatox8, validate_string}
use xe_build.Bytes.Hex.Laws.{
  IsAccepted, GoesOn, Digit, hex_value, myatox32_lem, validate_string_iff,
}

abbrev digits_memory : List ℕ
digits_memory = 0x31 ∷ 0x61 ∷ 0x46 ∷ 0 ∷ 0x39 ∷ []

abbrev three_digits : List Digit
three_digits = (false, 1) ∷ (false, 10) ∷ (true, 15) ∷ []

digits-GoesOn : GoesOn digits_memory 0 (0x31 ∷ 0x61 ∷ 0x46 ∷ [])
digits-GoesOn zero le = refl
digits-GoesOn (suc zero) le = refl
digits-GoesOn (suc (suc zero)) le = refl
digits-GoesOn (suc (suc (suc zero))) le = refl
digits-GoesOn (suc (suc (suc (suc k)))) le = absurd (omega arith)

myatox32_lem_example :
    (myatox32 digits_memory 0xffffffff ≡ 0x1af)
    × (length three_digits ≡ 2 → myatox8 digits_memory 0 ≡ 0x1af)
unfolding hex_value
myatox32_lem_example =
    myatox32_lem digits_memory 0xffffffff three_digits
      (omega arith, (omega arith, (omega arith, tt))) digits-GoesOn (omega arith)

abbrev minus_three : List ℕ
minus_three = 0x2d ∷ 0x33 ∷ []

validate_string_iff_example :
    ((validate_string minus_three ≡ true) ↔ ((minus_three ≢ []) × All IsAccepted minus_three))
    × (validate_string minus_three ≡ true
        → (dat : List ℕ) (def_value other : ℕ) → GoesOn dat 0 minus_three
        → myatox32 dat def_value ≡ myatox32 dat other)
validate_string_iff_example = validate_string_iff minus_three
