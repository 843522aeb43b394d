-- ===== src/Bytes/Hex/Laws.antt =====
-- What the parsers of hexadecimal digits accept, and the numbers that they give.
use xe_build.Base.{
  ℕ, zero, suc, ◌+◌, ◌*◌, ◌%◌, ◌^◌, ◌≤◌, ◌<◌, ◌≡◌, ◌≢◌, ◌↔◌, ◌⊎◌, inl, inr, refl, sym, ap, ◌∙◌,
  Bool, true, false, List, [], ◌∷◌, ◌++◌, length, arith, All, map, ltb, ◌==◌, if◌then◌else◌, u32,
  low_bits, ◌<<<◌, Bool-cases,
}
use xe_build.Bytes.{byte_at}
use xe_build.Bytes.Hex.{myatox, myatox8, myatox32_from, myatox32, valid_chars, validate_string}

-- The digit of a number below 16, in either case.
abbrev pub digit : Bool → ℕ → ℕ
digit upper d = if ltb d 10 then d + 0x30 else if upper then d + 0x37 else d + 0x57

myatox-digit : (upper : Bool) (d : ℕ) → d < 16 → myatox (digit upper d) ≡ d
unfolding myatox
myatox-digit true d lt = ground arith
myatox-digit false d lt = ground arith

-- The characters that are accepted are more than the digits.
abbrev pub IsAccepted : ℕ → Type 0
IsAccepted c = ((0x29 < c) × (c < 0x47) × (c ≢ 0x2f) × (c ≢ 0x40)) ⊎ ((0x60 < c) × (c < 0x67))

myatox-IsAccepted : (c : ℕ) → (myatox c ≢ 0xff) ↔ IsAccepted c
unfolding myatox
myatox-IsAccepted c = (λ h. ground (arith, h), λ h. ground (arith, h))

-- The string goes on at a place of the buffer, with its end mark.
abbrev pub GoesOn : List ℕ → ℕ → List ℕ → Type 0
GoesOn dat i s = (k : ℕ) → k ≤ length s → byte_at dat (i + k) ≡ byte_at (s ++ 0 ∷ []) k

GoesOn-next :
    (dat : List ℕ) (i c : ℕ) (s : List ℕ)
    → GoesOn dat i (c ∷ s)
    → (byte_at dat i ≡ c) × GoesOn dat (i + 1) s
GoesOn-next dat i c s h =
    let zero_on : i + 0 ≡ i = omega arith in
    (
      ap (byte_at dat) (sym zero_on) ∙ h 0 (omega arith),
      λ k le.
          let place : i + 1 + k ≡ i + suc k = omega arith in
          ap (byte_at dat) place ∙ h (suc k) (omega arith),
    )

GoesOn-end : (dat : List ℕ) (i : ℕ) → GoesOn dat i [] → (byte_at dat i == 0) ≡ true
GoesOn-end dat i h =
    let zero_on : i + 0 ≡ i = omega arith in
    let e : byte_at dat i ≡ 0 = ap (byte_at dat) (sym zero_on) ∙ h 0 (omega arith) in
    ground (arith, e)

-- `validateString` takes the strings that are not empty and have only accepted characters.
valid_chars_iff : (s : List ℕ) → (valid_chars s ≡ true) ↔ All IsAccepted s
unfolding valid_chars
valid_chars_iff [] = (λ h. tt, λ h. refl)
valid_chars_iff (c ∷ cs) =
    let one = myatox-IsAccepted c in
    let rest = valid_chars_iff cs in
    elim (Bool-cases (myatox c == 0xff)) [
      | inl e ↦ (λ h. absurd (ground (arith, e, h)), λ h. absurd (one.1 h.0 (ground (arith, e))))
      | inr e ↦ rw e (λ h. (one.0 (ground (arith, e)), rest.0 h), λ h. rest.1 h.1)
    ]

-- A round of `myatox32` on an accepted character that is not the end mark, and the last one.
myatox32_next :
    (left : ℕ) (dat : List ℕ) (i c retval def_value : ℕ)
    → byte_at dat i ≡ c
    → c ≢ 0
    → myatox c ≢ 0xff
    → myatox32_from (suc left) dat i retval def_value
      ≡ myatox32_from left dat (i + 1) (u32 (u32 (retval <<< 4) + low_bits (myatox c) 4)) def_value
unfolding myatox32_from
myatox32_next left dat i c retval def_value here ne ok =
    let go : (byte_at dat i == 0) ≡ false = ground (arith, here, ne) in
    let good : (myatox (byte_at dat i) == 0xff) ≡ false = rw here (ground (arith, ok)) in
    rw (go, good, here, myatox32_from) refl

myatox32_end :
    (left : ℕ) (dat : List ℕ) (i retval def_value : ℕ)
    → (byte_at dat i == 0) ≡ true
    → myatox32_from (suc left) dat i retval def_value ≡ retval
unfolding myatox32_from
myatox32_end left dat i retval def_value e = rw (e, myatox32_from) refl

from_valid :
    (left : ℕ) (dat : List ℕ) (i retval def_value other : ℕ) (s : List ℕ)
    → All IsAccepted s
    → GoesOn dat i s
    → myatox32_from left dat i retval def_value ≡ myatox32_from left dat i retval other
from_valid zero dat i retval def_value other s ok h = unfold myatox32_from in refl
from_valid (suc left) dat i retval def_value other [] ok h =
    let e = GoesOn-end dat i h in
    myatox32_end left dat i retval def_value e ∙ sym (myatox32_end left dat i retval other e)
from_valid (suc left) dat i retval def_value other (c ∷ s) ok h =
    let (here, more) = GoesOn-next dat i c s h in
    let ne : c ≢ 0 = ground (arith, ok.0) in
    let good = (myatox-IsAccepted c).1 ok.0 in
    let retval' = u32 (u32 (retval <<< 4) + low_bits (myatox c) 4) in
    myatox32_next left dat i c retval def_value here ne good
    ∙ (from_valid left dat (i + 1) retval' def_value other s ok.1 more
        ∙ sym (myatox32_next left dat i c retval other here ne good))

-- `validateString` holds exactly for a string that is not empty and whose characters are
-- hexadecimal digits or among `*` to `.`, and `:` to `?`. On such a string, with its end mark,
-- `myatox32` never falls back to its default.
pub validate_string_iff :
    (s : List ℕ)
    → ((validate_string s ≡ true) ↔ ((s ≢ []) × All IsAccepted s))
      × (validate_string s ≡ true
          → (dat : List ℕ) (def_value other : ℕ) → GoesOn dat 0 s
          → myatox32 dat def_value ≡ myatox32 dat other)
unfolding validate_string myatox32
validate_string_iff [] = (((λ h. absurd cc), λ h. absurd (h.0 refl)), λ h. absurd cc)
validate_string_iff (c ∷ cs) =
    let all = valid_chars_iff (c ∷ cs) in
    (
      (λ h. ((λ e. absurd cc), all.0 h), λ h. all.1 h.1),
      λ h dat def_value other on. from_valid 16 dat 0 0 def_value other (c ∷ cs) (all.0 h) on,
    )

-- The number that digits stand for, the highest first.
unfoldable pub hex_value : ℕ → List ℕ → ℕ
hex_value acc [] = acc
hex_value acc (d ∷ ds) = hex_value (acc * 16 + d) ds

hex_value_mod :
    (ds : List ℕ) (a b : ℕ)
    → a % 2 ^ 32 ≡ b % 2 ^ 32
    → hex_value a ds % 2 ^ 32 ≡ hex_value b ds % 2 ^ 32
unfolding hex_value
hex_value_mod [] a b e = e
hex_value_mod (d ∷ ds) a b e = hex_value_mod ds (a * 16 + d) (b * 16 + d) (omega (arith, e))

-- A digit with its case, the character for it and its value.
abbrev pub Digit : Type 0
Digit = Bool × ℕ

abbrev pub spelled : Digit → ℕ
spelled p = digit p.0 p.1

abbrev pub value : Digit → ℕ
value p = p.1

from_digits :
    (left : ℕ) (dat : List ℕ) (i retval def_value : ℕ) (ds : List Digit)
    → All (λ p. p.1 < 16) ds
    → GoesOn dat i (map spelled ds)
    → length ds ≤ left
    → retval < 2 ^ 32
    → myatox32_from left dat i retval def_value ≡ hex_value retval (map value ds) % 2 ^ 32
unfolding hex_value
from_digits zero dat i retval def_value [] all h enough small =
    unfold myatox32_from in omega (arith, small)
from_digits zero dat i retval def_value (p ∷ ds) all h enough small = absurd (omega arith)
from_digits (suc left) dat i retval def_value [] all h enough small =
    myatox32_end left dat i retval def_value (GoesOn-end dat i h) ∙ omega (arith, small)
from_digits (suc left) dat i retval def_value (p ∷ ds) all h enough small =
    let (here, more) = GoesOn-next dat i (spelled p) (map spelled ds) h in
    let val = myatox-digit p.0 p.1 all.0 in
    let next : u32 (u32 (retval <<< 4) + low_bits (myatox (spelled p)) 4)
        ≡ (retval * 16 + p.1) % 2 ^ 32 =
      omega (arith, val, all.0) in
    myatox32_next left dat i (spelled p) retval def_value here (ground arith)
      (omega (arith, val, all.0))
    ∙ (ap (λ r. myatox32_from left dat (i + 1) r def_value) next
        ∙ (from_digits left dat (i + 1) ((retval * 16 + p.1) % 2 ^ 32) def_value ds all.1 more
              (omega (arith, enough)) (omega arith)
            ∙ hex_value_mod (map value ds) ((retval * 16 + p.1) % 2 ^ 32) (retval * 16 + p.1)
                (omega arith)))

myatox8_digits :
    (dat : List ℕ) (ds : List Digit)
    → All (λ p. p.1 < 16) ds
    → GoesOn dat 0 (map spelled ds)
    → length ds ≡ 2
    → myatox8 dat 0 ≡ hex_value 0 (map value ds)
unfolding myatox8 hex_value
myatox8_digits dat [] all h e = absurd (omega (arith, e))
myatox8_digits dat (a ∷ []) all h e = absurd (omega (arith, e))
myatox8_digits dat (a ∷ (b ∷ (c ∷ ds))) all h e = absurd (omega (arith, e))
myatox8_digits dat (a ∷ (b ∷ [])) all h e =
    let one : myatox (byte_at dat 0) ≡ a.1 = rw (h 0 (omega arith)) (myatox-digit a.0 a.1 all.0) in
    let two : myatox (byte_at dat 1) ≡ b.1 =
      rw (h 1 (omega arith)) (myatox-digit b.0 b.1 all.1.0) in
    omega (arith, one, two, all.0, all.1.0)

-- On at most 16 hexadecimal digits, each of them in upper or lower case, with an end mark behind
-- them, `myatox32` gives their number modulo 2^32, and `myatox8` that of two digits.
pub myatox32_lem :
    (dat : List ℕ) (def_value : ℕ) (ds : List Digit)
    → All (λ p. p.1 < 16) ds
    → GoesOn dat 0 (map spelled ds)
    → length ds ≤ 16
    → (myatox32 dat def_value ≡ hex_value 0 (map value ds) % 2 ^ 32)
      × (length ds ≡ 2 → myatox8 dat 0 ≡ hex_value 0 (map value ds))
unfolding myatox32 myatox8
myatox32_lem dat def_value ds all h le =
    (from_digits 16 dat 0 0 def_value ds all h le (omega arith), myatox8_digits dat ds all h)
