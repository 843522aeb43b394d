-- ===== src/Spa/Entries/Frame.antt =====
-- The icon in the header.
use mathlib.Core.Path.{subst}
use xe_build.Base.{ℕ, ◌+◌, ◌≤◌, ◌≡◌, refl, ◌∙◌, List, length, arith, inl, inr}
use xe_build.Bytes.{bytes32}
use xe_build.Svod.Disc.{Memory, slice, store}
use xe_build.Svod.Writer.Blocks.{slice_ext}
use xe_build.Header.{thumbnail_at, title_thumbnail_at, thumbnail_size_at, title_thumbnail_size_at}
use xe_build.Header.Stores.{slice-store_same, slice-store_kept}
use xe_build.Spa.Frame.{KeepsRest, length-slice}
use xe_build.Spa.Entries.{store_icon}

-- An icon of `len` bytes at `start` of the resources stands in the header, twice, with its size.
pub record HasIcon (spa : Memory) (start len : ℕ) (h : Memory) : Type 0 where
  pub thumbnail : slice h thumbnail_at len ≡ slice spa start len
  pub title_thumbnail : slice h title_thumbnail_at len ≡ slice spa start len
  pub thumbnail_size : slice h thumbnail_size_at 4 ≡ bytes32 len
  pub title_thumbnail_size : slice h title_thumbnail_size_at 4 ≡ bytes32 len

slice-store_same' :
    (mem : Memory) (p n : ℕ) (xs : List ℕ) → length xs ≡ n → slice (store mem p xs) p n ≡ xs
slice-store_same' mem p n xs e =
    subst (λ m. slice (store mem p xs) p m ≡ xs) e (slice-store_same mem p xs)

pub store_icon-HasIcon :
    (spa : Memory) (start len : ℕ) (h : Memory)
    → len ≤ 0x3d00
    → HasIcon spa start len (store_icon spa start len h)
unfolding store_icon
store_icon-HasIcon spa start len h le =
    let icon = slice spa start len in
    let size = bytes32 len in
    let fits : length icon ≡ len = length-slice spa start len in
    let h₁ = store h thumbnail_at icon in
    let h₂ = store h₁ title_thumbnail_at icon in
    let h₃ = store h₂ thumbnail_size_at size in
    record {
      thumbnail =
          slice-store_kept h₃ title_thumbnail_size_at size thumbnail_at len icon (inl (omega arith))
            (slice-store_kept h₂ thumbnail_size_at size thumbnail_at len icon (inl (omega arith)) (
              slice-store_kept h₁ title_thumbnail_at icon thumbnail_at len icon
                (inr (omega (arith, le))) (slice-store_same' h thumbnail_at len icon fits)));
      title_thumbnail =
          slice-store_kept h₃ title_thumbnail_size_at size title_thumbnail_at len icon
            (inl (omega arith))
            (slice-store_kept h₂ thumbnail_size_at size title_thumbnail_at len icon
              (inl (omega arith)) (slice-store_same' h₁ title_thumbnail_at len icon fits));
      thumbnail_size =
          slice-store_kept h₃ title_thumbnail_size_at size thumbnail_size_at 4 size
            (inr (omega arith)) (slice-store_same' h₂ thumbnail_size_at 4 size refl);
      title_thumbnail_size = slice-store_same' h₃ title_thumbnail_size_at 4 size refl;
    }

-- The texts leave the icon as it is.
pub HasIcon-KeepsRest :
    (spa : Memory) (start len : ℕ) (h h' : Memory)
    → len ≤ 0x3d00
    → KeepsRest h h'
    → HasIcon spa start len h
    → HasIcon spa start len h'
HasIcon-KeepsRest spa start len h h' le kept icon = record {
  thumbnail =
      slice_ext h' h thumbnail_at thumbnail_at len
        (λ k lt. kept.at (thumbnail_at + k) (ground (arith, le, lt)))
      ∙ icon.thumbnail;
  title_thumbnail =
      slice_ext h' h title_thumbnail_at title_thumbnail_at len
        (λ k lt. kept.at (title_thumbnail_at + k) (ground (arith, le, lt)))
      ∙ icon.title_thumbnail;
  thumbnail_size =
      slice_ext h' h thumbnail_size_at thumbnail_size_at 4
        (λ k lt. kept.at (thumbnail_size_at + k) (ground (arith, lt)))
      ∙ icon.thumbnail_size;
  title_thumbnail_size =
      slice_ext h' h title_thumbnail_size_at title_thumbnail_size_at 4
        (λ k lt. kept.at (title_thumbnail_size_at + k) (ground (arith, lt)))
      ∙ icon.title_thumbnail_size;
}
