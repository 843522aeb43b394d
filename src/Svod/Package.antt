-- ===== src/Svod/Package.antt =====
-- `fixIsoHeaders` and `isoToSvod` of tools/iso2svod/source/isoio.c.
pub mod Chain
use mathlib.Core.Option
use xe_build.Base.{
  ℕ, Bool, true, false, Option, none, some, List, [], ◌∷◌, length, ◌!=◌, if◌then◌else◌,
}
use xe_build.Svod.Disc.{Disc}
use xe_build.Svod.Writer.{
  Hash, SvodFile, Outcome, zero_hash, level1_page, write_header_to_file, write_iso_body,
}

-- The files with their headers as they are behind the loop, the hash that goes into the volume
-- descriptor, and the returned flag.
pub record Fixed : Type 0 where
  pub files : List SvodFile
  pub hash_info : Hash
  pub success : Bool

module _ (sha : List ℕ → Hash) (opens : ℕ → Bool) where
  -- The header of a file once the hash of the next one is in it.
  pub with_next : Bool → Hash → SvodFile → SvodFile
  with_next true hash f = f
  with_next false hash f = write_header_to_file f (record (f.header) { next = hash })

  -- The loop from the last file down; `last` says that `i == lastFile`. A file that cannot be
  -- opened ends it.
  pub fix_headers : Bool → Hash → List SvodFile → Fixed
  fix_headers last hash [] = record { files = []; hash_info = hash; success = true }
  fix_headers last hash (f ∷ fs) =
      let f' = with_next last hash f in
      let rest = fix_headers false (sha (level1_page f'.header)) fs in
      if opens (length fs)
      then record rest { files = f' ∷ rest.files }
      else record { files = f ∷ fs; hash_info = hash; success = false }

  pub fix_iso_headers : List SvodFile → Fixed
  fix_iso_headers files = fix_headers true zero_hash files

-- What `isoToSvod` leaves: the files, the hash in the volume descriptor (`none` where it was not
-- stored), and the returned flag.
pub record Package : Type 0 where
  pub files : List SvodFile
  pub first_hash : Option Hash
  pub success : Bool

-- `isoToSvod` once `writeIsoBody` has returned. What `fixIsoHeaders` returns is not looked at.
pub package_of : (List ℕ → Hash) → (ℕ → Bool) → Outcome → Package
package_of sha reopens o =
    let fixed = fix_iso_headers sha reopens o.files in
    if o.ret != 0
    then record {
      files = fixed.files;
      first_hash = if fixed.success then some fixed.hash_info else none;
      success = true;
    }
    else record { files = o.files; first_hash = none; success = false }

pub iso_to_svod : (List ℕ → Hash) → (ℕ → Bool) → (ℕ → Bool) → Disc → ℕ → ℕ → ℕ → Option Package
iso_to_svod sha opens reopens d fuel max_sector min_sector =
    Option.map (package_of sha reopens) (write_iso_body sha opens d fuel max_sector min_sector)
