-- ===== src/Xex/Load/Raw.antt =====
-- An executable that is neither encrypted nor compressed.
use xe_build.Base.{
  ℕ, ◌+◌, ◌*◌, ◌/◌, ◌^◌, ◌≤◌, ◌<◌, ◌≡◌, refl, Bool, true, false, Option, some, List, length, arith,
  bit_and, ◌!=◌, sub32,
}
use xe_build.Bytes.{byte_at}
use xe_build.Svod.Disc.{Memory}
use xe_build.Xex.Inflate.{Decoder}
use xe_build.Xex.Inflate.Chain.{Stands}
use xe_build.Xex.Info.{word_at, half_at}
use xe_build.Xex.Info.Raw.{Piece, descriptor, stored, image_of, expand_raw-image_of}
use xe_build.Xex.Load.{Image, decrypt_file, load_image}

-- The data descriptor at `desc` says that the file is plain and has these records.
pub record IsPlain (mem : Memory) (desc : ℕ) (ps : List Piece) : Type 0 where
  pub open_flags : bit_and (half_at mem (desc + 4)) 1 ≡ 0
  pub format : half_at mem (desc + 6) ≡ 1
  pub size : word_at mem desc ≡ 8 + 8 * length ps
  pub records : Stands mem (desc + 8) (descriptor ps)
  pub bytes : Stands mem (word_at mem 8) (stored ps)

-- A file whose data descriptor says that it is neither encrypted nor compressed, with fewer than
-- 2^28 records, the records' data one behind the other behind the headers, and an image of less
-- than 4 GB that fits the `ImageSize` bytes allocated for it, is loaded without any fuel and stays
-- as it is: the image is the data of each record with its zeros behind it, in their order, and
-- zeros to its end.
pub load_image-IsPlain :
    (cbc : List ℕ → List ℕ → List ℕ → List ℕ) (xex1_key xex2_key : List ℕ) (alloc : ℕ → Bool)
    (lzxd : ℕ → ℕ → ℕ → Option Decoder) (fuel : ℕ) (mem : Memory) (sec desc len : ℕ)
    (ps : List Piece)
    → IsPlain mem desc ps
    → length ps < 2 ^ 28
    → length (image_of ps) < 2 ^ 32
    → length (image_of ps) ≤ word_at mem (sec + 4)
    → (im : Image) × (load_image cbc xex1_key xex2_key alloc lzxd fuel mem sec desc len ≡ some im)
      × (im.good ≡ true)
      × (im.file ≡ mem)
      × ((k : ℕ) → im.out k ≡ byte_at (image_of ps) k)
unfolding load_image
load_image-IsPlain cbc xex1_key xex2_key alloc lzxd fuel mem sec desc len ps plain few small room =
    let (out, run, same) =
      expand_raw-image_of ps (word_at mem (sec + 4)) mem (desc + 8) (word_at mem 8) plain.records
        plain.bytes small room in
    let count : sub32 (word_at mem desc) 8 / 8 ≡ length ps = omega (arith, plain.size, few) in
    let flags : (bit_and (half_at mem (desc + 4)) 1 != 0) ≡ false =
      ground (arith, plain.open_flags) in
    let kept : decrypt_file cbc xex1_key xex2_key mem sec desc len ≡ mem =
      unfold decrypt_file in rw flags refl in
    (
      record { good = true; file = mem; out = out },
      rw (flags, kept, plain.format, count, run, kept) refl,
      refl,
      refl,
      same,
    )
