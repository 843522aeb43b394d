-- ===== src/Tests/Update.antt =====
-- The theorems on su_check/main.c at a container and a manifest of zeros.
use xe_build.Base.{
  ℕ, ◌+◌, ◌≡◌, ◌↔◌, ◌⊎◌, true, some, List, arith, take, sub32, replicate, ltb, ◌∷◌, [],
  if◌then◌else◌, refl,
}
use mathlib.Core.Option
use xe_build.Bytes.{check_zeros, check_zeros_from}
use xe_build.Svod.Disc.{Memory, slice}
use xe_build.Stfs.{
  Outcome, con_check_hashes, check_loop, turn, check_table, next_table, enter_table, same_hash,
}
use xe_build.Stfs.Cover.{IsCovered, con_check_hashes_covers}
use xe_build.Stfs.Sound.{AllBacked, con_check_hashes_lem}
use xe_build.Manifest.{Files, field, schema_of, verify_manifest_header}
use xe_build.Manifest.Header.{verify_manifest_header_iff}

abbrev first_bytes : List ℕ → List ℕ
first_bytes bytes = take 20 bytes

abbrev blank : Memory
blank = λ k. 0

con_check_hashes_lem_example :
    (o : Outcome) × (con_check_hashes first_bytes blank 2 0x1000 0x5000 ≡ some o)
    × (o.ok ≡ true
        → (slice blank 0x32c 0x14 ≡ first_bytes (slice blank 0x344 (sub32 0x1000 0x344)))
          × AllBacked first_bytes blank o.block_info)
con_check_hashes_lem_example =
    con_check_hashes_lem first_bytes blank 2 0x1000 0x5000 (omega arith) (omega arith) (omega arith)

verify_manifest_header_iff_example : (verify_manifest_header first_bytes blank ≡ true) ↔ (
    (((schema_of blank ≡ 1) × (field blank 0x138 ≡ 0x786d616e))
      ⊎ ((schema_of blank ≡ 3)
          × ((field blank 0x138 ≡ 0x7873796d) ⊎ (field blank 0x138 ≡ 0x786f6e6d))))
    × (field blank 0 ≡ 0x584d4e50)
    × (first_bytes (slice blank 0x138 (field blank (0x138 + 4))) ≡ slice blank 0x24 0x14))
verify_manifest_header_iff_example = verify_manifest_header_iff first_bytes blank

-- Every file is a blank of 0x3000 bytes.
abbrev blanks : Files
blanks name = some (blank, 0x3000)

-- A container of one hash table with one entry, for a hash that is always the same.
abbrev ones : List ℕ → List ℕ
ones bytes = replicate 20 1

abbrev one_block : Memory
one_block k = if ltb k 0x1018 then 1 else 0

abbrev one_checked : Outcome
one_checked = record { ok = true; block_info = 0x2000 ∷ [] }

one_block_accepted : con_check_hashes ones one_block 2 0x1000 0x3000 ≡ some one_checked
unfolding con_check_hashes check_loop turn check_table next_table enter_table same_hash slice
    check_zeros check_zeros_from
one_block_accepted = refl

con_check_hashes_covers_example : IsCovered ones one_block 0xaa 0 0x1000 (0x1000 + 0x1000)
con_check_hashes_covers_example =
    con_check_hashes_covers ones one_block 2 0x1000 0x3000 one_checked (omega arith)
      one_block_accepted refl
