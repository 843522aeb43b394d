-- ===== src/Manifest/Header.antt =====
-- Which manifests pass `verifyManifestHeader` of tools/su_check/su_check/main.c.
use xe_build.Base.{ℕ, ◌+◌, ◌≡◌, ◌↔◌, ◌⊎◌, true, List, arith}
use xe_build.Svod.Disc.{Memory, slice}
use xe_build.Stfs.Sound.{same_hash_iff}
use xe_build.Manifest.{field, schema_of, verify_manifest_header}

-- A manifest is accepted exactly if its schema is 1 with the magic 'xman' or 3 with 'xsym' or
-- 'xonm', its header's magic is 'XMNP', and the hash of the body, as long as the body says, is the
-- one that the header holds.
pub verify_manifest_header_iff :
    (sha : List ℕ → List ℕ) (bytes : Memory)
    → (verify_manifest_header sha bytes ≡ true) ↔ (
        (((schema_of bytes ≡ 1) × (field bytes 0x138 ≡ 0x786d616e))
          ⊎ ((schema_of bytes ≡ 3)
              × ((field bytes 0x138 ≡ 0x7873796d) ⊎ (field bytes 0x138 ≡ 0x786f6e6d))))
        × (field bytes 0 ≡ 0x584d4e50)
        × (sha (slice bytes 0x138 (field bytes (0x138 + 4))) ≡ slice bytes 0x24 0x14))
unfolding verify_manifest_header
verify_manifest_header_iff sha bytes =
    let same =
      same_hash_iff (sha (slice bytes 0x138 (field bytes (0x138 + 4)))) (slice bytes 0x24 0x14) in
    (
      λ h. (ground (arith, h), ground (arith, h), same.0 (ground (arith, h))),
      λ h. ground (arith, h.0, h.1, same.1 h.2),
    )
