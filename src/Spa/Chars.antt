-- ===== src/Spa/Chars.antt =====
-- The characters that `endianCopyWcharBuf` stores.
use xe_build.Base.{
  ℕ, zero, suc, ◌+◌, ◌-◌, ◌*◌, ◌/◌, ◌%◌, ◌^◌, ◌≤◌, ◌<◌, ◌≡◌, refl, sym, ap, ◌∙◌, true, false, ◌&&◌,
  List, [], ◌∷◌, length, replicate, length-replicate, low_bits, arith, ltb, leb, if◌then◌else◌,
  Bool-cases, inl, inr,
}
use xe_build.Bytes.{byte_at}
use xe_build.Bytes.Laws.{get_be16_sum}
use xe_build.Svod.Disc.{Memory, slice, store}
use xe_build.Xex.Info.{half_at}
use xe_build.Spa.{swapped_chars, endian_copy_wchar_buf}
use xe_build.Spa.Frame.{length-swapped_chars}

byte_at-zeros : (n i : ℕ) → byte_at (replicate n 0) i ≡ 0
byte_at-zeros zero i = refl
byte_at-zeros (suc n) zero = refl
byte_at-zeros (suc n) (suc i) = byte_at-zeros n i

byte_at-beyond : (xs : List ℕ) (i : ℕ) → length xs ≤ i → byte_at xs i ≡ 0
byte_at-beyond [] i le = refl
byte_at-beyond (x ∷ xs) zero le = absurd (omega (arith, le))
byte_at-beyond (x ∷ xs) (suc i) le = byte_at-beyond xs i (omega (arith, le))

-- Character `i` among the first `n`, and its bytes.
abbrev char_of : ℕ → List ℕ → ℕ → ℕ
char_of n cs i = if ltb i n then byte_at cs i else 0

abbrev HasChar : List ℕ → ℕ → ℕ → Type 0
HasChar bytes i c =
    (byte_at bytes (i * 2) ≡ c / 2 ^ 8 % 256) × (byte_at bytes (i * 2 + 1) ≡ c % 256)

HasChar-suc :
    (a b : ℕ) (bytes : List ℕ) (i c : ℕ) → HasChar bytes i c → HasChar (a ∷ b ∷ bytes) (suc i) c
HasChar-suc a b bytes i c (high, low) =
    let e : suc i * 2 ≡ suc (suc (i * 2)) = omega arith in
    let e' : suc i * 2 + 1 ≡ suc (suc (i * 2 + 1)) = omega arith in
    (ap (byte_at (a ∷ b ∷ bytes)) e ∙ high, ap (byte_at (a ∷ b ∷ bytes)) e' ∙ low)

swapped_chars-HasChar :
    (n : ℕ) (cs : List ℕ) (i : ℕ) → HasChar (swapped_chars n cs) i (char_of n cs i)
unfolding swapped_chars
swapped_chars-HasChar zero cs i = let e : char_of 0 cs i ≡ 0 = ground arith in rw e (refl, refl)
swapped_chars-HasChar (suc n) [] i =
    let e : char_of (suc n) [] i ≡ 0 = ground arith in rw e (refl, refl)
swapped_chars-HasChar (suc n) (c ∷ cs) zero =
    let e : char_of (suc n) (c ∷ cs) 0 ≡ c = ground arith in rw e (refl, refl)
swapped_chars-HasChar (suc n) (c ∷ cs) (suc i) =
    let same : ltb (suc i) (suc n) ≡ ltb i n = ground arith in
    rw same (HasChar-suc _ _ (swapped_chars n cs) i (char_of n cs i) (swapped_chars-HasChar n cs i))

-- Bytes that are stored over zeros.
padded :
    (h : Memory) (p m : ℕ) (xs : List ℕ) (j : ℕ)
    → length xs ≤ m
    → j < m
    → store (store h p (replicate m 0)) p xs (p + j) ≡ byte_at xs j
padded h p m xs j le lt =
    let at : p + j - p ≡ j = omega arith in
    let zeros : length {A = ℕ} (replicate m 0) ≡ m = length-replicate {A = ℕ} m 0 in
    elim (Bool-cases (ltb j (length xs))) [
      | inl inside ↦
          let here : (leb p (p + j) && ltb (p + j) (p + length xs)) ≡ true =
            ground (arith, inside) in
          rw (here, at) refl
      | inr outside ↦
          let there : (leb p (p + j) && ltb (p + j) (p + length xs)) ≡ false =
            ground (arith, outside) in
          let under : (leb p (p + j) && ltb (p + j) (p + length {A = ℕ} (replicate m 0))) ≡ true =
            ground (arith, zeros, lt) in
          rw (there, under, at)
            (byte_at-zeros m j ∙ sym (byte_at-beyond xs j (ground (arith, outside))))
    ]

-- The character that is expected at place `i` of `n`.
abbrev pub text_char : List ℕ → ℕ → ℕ → ℕ
text_char cs n i = if ltb i (n - 1) then byte_at cs i else 0

char_of_text :
    (cs : List ℕ) (n i : ℕ)
    → char_of (if ltb (length cs) (n - 1) then length cs else n - 1) cs i ≡ text_char cs n i
char_of_text cs n i = elim (Bool-cases (ltb i (length cs))) [
  | inl inside ↦ ground (arith, inside)
  | inr outside ↦
      let none : byte_at cs i ≡ 0 = byte_at-beyond cs i (ground (arith, outside)) in
      rw none (ground arith)
]

both :
    (a b c : ℕ)
    → c < 2 ^ 16
    → a ≡ c / 2 ^ 8 % 256
    → b ≡ c % 256
    → low_bits a 8 * 2 ^ 8 + low_bits b 8 ≡ c
both a b c small high low = omega (arith, small, high, low)

-- `endianCopyWcharBuf` for a text that ends where its characters do: reading the characters back
-- gives those of the text up to one less than there is place for, and zeros from there on, so that
-- the text in the header always ends with a zero. The characters have 16 bits.
pub endian_copy_wchar_buf_lem :
    (cs : List ℕ) (p n i : ℕ) (h : Memory)
    → i < n
    → byte_at cs i < 2 ^ 16
    → half_at (endian_copy_wchar_buf cs (length cs) p n h) (p + i * 2) ≡ text_char cs n i
unfolding endian_copy_wchar_buf slice
endian_copy_wchar_buf_lem cs p n i h lt fits =
    let len = if ltb (length cs) (n - 1) then length cs else n - 1 in
    let bytes = swapped_chars len cs in
    let h' = endian_copy_wchar_buf cs (length cs) p n h in
    let le : length bytes ≤ n * 2 = ground (arith, length-swapped_chars len cs) in
    let (high, low) = swapped_chars-HasChar len cs i in
    let one : h' (p + i * 2) ≡ byte_at bytes (i * 2) =
      padded h p (n * 2) bytes (i * 2) le (omega (arith, lt)) in
    let next : p + i * 2 + 1 ≡ p + (i * 2 + 1) = omega arith in
    let two : h' (p + i * 2 + 1) ≡ byte_at bytes (i * 2 + 1) =
      ap h' next ∙ padded h p (n * 2) bytes (i * 2 + 1) le (omega (arith, lt)) in
    let char : char_of len cs i ≡ text_char cs n i = char_of_text cs n i in
    let small : char_of len cs i < 2 ^ 16 = ground (arith, fits) in
    get_be16_sum (slice h' (p + i * 2) 2) 0
    ∙ (both _ _ (char_of len cs i) small (one ∙ high) (two ∙ low) ∙ char)
