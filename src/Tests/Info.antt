-- ===== src/Tests/Info.antt =====
-- The theorems on xexinfo.c at a plain file of two records.
use xe_build.Base.{ℕ, ◌≡◌, refl, true, none, some, List, [], ◌∷◌, ◌++◌, replicate, arith}
use xe_build.Bytes.{byte_at, get_be16, get_be32}
use xe_build.Svod.Disc.{Memory, slice}
use xe_build.Xex.Inflate.{list_memory}
use xe_build.Xex.Inflate.Chain.{Stands}
use xe_build.Xex.Info.Raw.{Piece, descriptor, stored, image_of}
use xe_build.Xex.Load.{Image, load_image}
use xe_build.Xex.Load.Raw.{IsPlain, load_image-IsPlain}

abbrev header : List ℕ
header =
    88 ∷ 69 ∷ 88 ∷ 50 ∷ 0 ∷ 0 ∷ 0 ∷ 0 ∷ 0 ∷ 0 ∷ 0 ∷ 128 ∷ 0 ∷ 0 ∷ 0 ∷ 0 ∷ 0 ∷ 0 ∷ 1 ∷ 0 ∷ 0 ∷ 0 ∷ 0
    ∷ 2 ∷ 0 ∷ 0 ∷ 3 ∷ 255 ∷ 0 ∷ 0 ∷ 0 ∷ 40 ∷ 0 ∷ 4 ∷ 0 ∷ 6 ∷ 0 ∷ 0 ∷ 0 ∷ 96 ∷ 0 ∷ 0 ∷ 0 ∷ 24 ∷ 0 ∷ 0
    ∷ 0 ∷ 1 ∷ 0 ∷ 0 ∷ 0 ∷ 2 ∷ 0 ∷ 0 ∷ 0 ∷ 3 ∷ 0 ∷ 0 ∷ 0 ∷ 1 ∷ 0 ∷ 0 ∷ 0 ∷ 0 ∷ []

abbrev file : Memory
file = list_memory (
    header
    ++ (replicate 52 0 ++ ((0 ∷ 0 ∷ 0 ∷ 6 ∷ []) ++ (replicate 8 0 ++ (0xaa ∷ 0xbb ∷ 0xcc ∷ [])))))

abbrev pieces : List Piece
pieces =
    (record { content = 0xaa ∷ 0xbb ∷ []; gap = 3 })
    ∷ (record { content = 0xcc ∷ []; gap = 0 })
    ∷ []

abbrev cbc : List ℕ → List ℕ → List ℕ → List ℕ
cbc key feed input = input

file-IsPlain : IsPlain file 0x28 pieces
unfolding Stands descriptor stored get_be16 get_be32 slice
file-IsPlain = record {
  open_flags = refl;
  format = refl;
  size = refl;
  records = (
    refl,
    (
      refl,
      (
        refl,
        (
          refl,
          (
            refl,
            (
              refl,
              (refl, (refl, (refl, (refl, (refl, (refl, (refl, (refl, (refl, (refl, tt)))))))))),
            ),
          ),
        ),
      ),
    ),
  );
  bytes = (refl, (refl, (refl, tt)));
}

load_image-IsPlain_example :
    (im : Image) × (load_image cbc [] [] (λ n. true) (λ a b c. none) 0 file 0x70 0x28 0x400
      ≡ some im)
    × (im.good ≡ true)
    × (im.file ≡ file)
    × ((k : ℕ) → im.out k ≡ byte_at (image_of pieces) k)
load_image-IsPlain_example =
    load_image-IsPlain cbc [] [] (λ n. true) (λ a b c. none) 0 file 0x70 0x28 0x400 pieces
      file-IsPlain (omega arith) (unfold image_of in omega arith)
      (unfold image_of get_be32 slice in omega arith)
