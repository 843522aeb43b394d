-- ===== src/Svod/Open/Magic.antt =====
-- Which images `getXgdBaseOffset` knows.
use xe_build.Base.{
  ℕ, ◌+◌, ◌-◌, ◌≤◌, ◌<◌, ◌≡◌, refl, ap, ◌∙◌, Bool, true, false, ◌&&◌, arith, ltb, if◌then◌else◌,
}
use xe_build.Stfs.{same_hash}
use xe_build.Svod.Disc.{Memory, Disc, slice}
use xe_build.Svod.Writer.Blocks.{slice_ext}
use xe_build.Svod.Scan.{blank}
use xe_build.Svod.Open.{
  Probe, iso_read_internal, image_magic, magic_offset_xdki, magic_offset_xgd2, magic_offset_xgd3,
  starts_with_magic, is_xdk_head, try_magic, get_xgd_base_offset,
}

-- The magic stands in the image, and the header of an image of the development kit.
abbrev pub has_magic : Disc → ℕ → Bool
has_magic d offset = same_hash (slice d.byte offset 20) image_magic

abbrev pub has_xdk_head : Disc → Bool
has_xdk_head d = has_magic d 0x10000 && has_magic d 0x107ec

read_slice :
    (d : Disc) (offset : ℕ) (buf : Memory) (at n : ℕ)
    → at + n ≤ 0x800
    → offset + at + n ≤ d.size
    → slice (iso_read_internal d offset buf 0x800) at n ≡ slice d.byte (offset + at) n
unfolding iso_read_internal
read_slice d offset buf at n within whole =
    slice_ext (iso_read_internal d offset buf 0x800) d.byte at (offset + at) n (λ k lt.
      let same : offset + (at + k) ≡ offset + at + k = omega arith in
      ground (arith, ap d.byte same))

test_lem :
    (d : Disc) (offset : ℕ) (buf : Memory)
    → offset + 20 < d.size
    → starts_with_magic (iso_read_internal d offset buf 0x800) ≡ has_magic d offset
test_lem d offset buf room =
    let zero_on : offset + 0 ≡ offset = omega arith in
    ap (λ b. same_hash b image_magic)
      (read_slice d offset buf 0 20 (omega arith) (omega arith)
        ∙ ap (λ o. slice d.byte o 20) zero_on)

-- An image that is long enough for the magic and has it.
abbrev pub is_known : Disc → ℕ → Bool
is_known d offset = ltb (offset + 20) d.size && has_magic d offset

try_magic_lem :
    (d : Disc) (offset : ℕ) (p : Probe)
    → ((try_magic d offset starts_with_magic p).ret ≡ (if p.ret then true else is_known d offset))
      × ((try_magic d offset starts_with_magic p).base
          ≡ (if p.ret then p.base else if is_known d offset then offset - 0x10000 else p.base))
unfolding try_magic
try_magic_lem d offset p =
    let same = test_lem d offset p.buffer in (ground (arith, same), ground (arith, same))

try_xdk_lem :
    (d : Disc) (p : Probe)
    → 0x10800 ≤ d.size
    → p.ret ≡ false
    → ((try_magic d magic_offset_xdki is_xdk_head p).ret ≡ has_xdk_head d)
      × ((try_magic d magic_offset_xdki is_xdk_head p).base
          ≡ (if has_xdk_head d then 0 else p.base))
unfolding try_magic
try_xdk_lem d p whole fresh =
    let head = test_lem d 0x10000 p.buffer (omega arith) in
    let tail =
      ap (λ b. same_hash b image_magic)
        (read_slice d 0x10000 p.buffer 0x7ec 20 (omega arith) (omega arith)) in
    (ground (arith, head, tail, fresh), ground (arith, head, tail, fresh))

-- For an image that reaches behind the first header, `getXgdBaseOffset` succeeds exactly if the
-- magic stands at one of the three places of the image, at the first of them with its copy at the
-- end of the header; the place that it takes is the first that fits in the order XDK, XGD3, XGD2,
-- and the base offset lies 0x10000 before it. If there is none the base offset stays.
pub get_xgd_base_offset_lem :
    (d : Disc)
    → 0x10800 ≤ d.size
    → let p = get_xgd_base_offset d in
      (p.ret ≡ (
        if has_xdk_head d
        then true
        else if is_known d 0x2090000
        then true
        else is_known d 0xfda0000))
      × (p.base ≡ (
          if has_xdk_head d
          then 0
          else if is_known d 0x2090000
          then 0x2080000
          else if is_known d 0xfda0000
          then 0xfd90000
          else d.base))
unfolding get_xgd_base_offset
get_xgd_base_offset_lem d whole =
    let p₀ : Probe = record { ret = false; buffer = blank; base = d.base } in
    let p₁ = try_magic d magic_offset_xdki is_xdk_head p₀ in
    let p₂ = try_magic d magic_offset_xgd3 starts_with_magic p₁ in
    let one = try_xdk_lem d p₀ whole refl in
    let two = try_magic_lem d magic_offset_xgd3 p₁ in
    let three = try_magic_lem d magic_offset_xgd2 p₂ in
    (ground (arith, one, two, three), ground (arith, one, two, three))
