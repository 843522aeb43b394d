-- ===== src/Paths/Names.antt =====
-- Paths, their separators and the names between them.
use xe_build.Base.{
  ℕ, zero, suc, ◌<◌, ◌≡◌, ◌⊎◌, refl, ap, Bool, true, false, Option, some, List, [], ◌∷◌, ◌++◌,
  length, take, drop, arith, ◌==◌, if◌then◌else◌, All, ◌&&◌,
}
use xe_build.Paths.{separator, without_separator, ends_in_separator}

pub append_assoc : (xs ys zs : List ℕ) → (xs ++ ys) ++ zs ≡ xs ++ (ys ++ zs)
append_assoc [] ys zs = refl
append_assoc (x ∷ xs) ys zs = ap (λ t. x ∷ t) (append_assoc xs ys zs)

pub append_nil : (xs : List ℕ) → xs ++ [] ≡ xs
append_nil [] = refl
append_nil (x ∷ xs) = ap (λ t. x ∷ t) (append_nil xs)

-- A path that ends in a separator still does when its first characters are taken off.
pub ends-append :
    (xs : List ℕ) (c : ℕ) (ys : List ℕ)
    → ends_in_separator (xs ++ (c ∷ ys)) ≡ ends_in_separator (c ∷ ys)
unfolding ends_in_separator
ends-append [] c ys = refl
ends-append (x ∷ []) c ys = refl
ends-append (x ∷ y ∷ xs) c ys = ends-append (y ∷ xs) c ys

pub split_path :
    (n : ℕ) (xs : List ℕ)
    → n < length xs
    → ends_in_separator xs ≡ true
    → (ends_in_separator (drop n xs) ≡ true)
      × (take n xs ++ without_separator (drop n xs) ≡ without_separator xs)
unfolding ends_in_separator without_separator
split_path zero xs lt ends = (ends, refl)
split_path (suc n) [] lt ends = absurd (omega (arith, lt))
split_path (suc n) (x ∷ []) lt ends = absurd (omega (arith, lt))
split_path (suc n) (x ∷ y ∷ xs) lt ends =
    let (ends', same) = split_path n (y ∷ xs) (omega (arith, lt)) ends in
    (ends', ap (λ t. x ∷ t) same)

pub append-take-drop : (n : ℕ) (xs : List ℕ) → take n xs ++ drop n xs ≡ xs
append-take-drop zero xs = refl
append-take-drop (suc n) [] = refl
append-take-drop (suc n) (x ∷ xs) = ap (λ t. x ∷ t) (append-take-drop n xs)

-- A separator behind a path, and the path without it.
pub with_separator :
    (xs : List ℕ)
    → (ends_in_separator (xs ++ (separator ∷ [])) ≡ true)
      × (without_separator (xs ++ (separator ∷ [])) ≡ xs)
unfolding ends_in_separator without_separator
with_separator [] = (refl, refl)
with_separator (x ∷ []) = (refl, refl)
with_separator (x ∷ y ∷ xs) =
    let (ends, same) = with_separator (y ∷ xs) in (ends, ap (λ t. x ∷ t) same)

-- Names of folders: they have characters, and no separator.
abbrev pub has_characters : List ℕ → Bool
has_characters [] = false
has_characters (c ∷ cs) = true

abbrev pub IsName : List ℕ → Type 0
IsName name = (has_characters name ≡ true) × All (λ c. (c == separator) ≡ false) name

-- Every separator of a path has a name in front of it, where `named` says whether the path goes on
-- a name that has characters.
unfoldable pub has_names : Bool → List ℕ → Bool
has_names named [] = true
has_names named (c ∷ cs) = if c == separator then named && has_names false cs else has_names true cs

pub has_characters-append : (xs : List ℕ) (c : ℕ) → has_characters (xs ++ (c ∷ [])) ≡ true
has_characters-append [] c = refl
has_characters-append (x ∷ xs) c = refl

pub All-append-one :
    (xs : List ℕ) (c : ℕ)
    → All (λ c. (c == separator) ≡ false) xs
    → (c == separator) ≡ false
    → All (λ c. (c == separator) ≡ false) (xs ++ (c ∷ []))
All-append-one [] c all one = (one, tt)
All-append-one (x ∷ xs) c all one = (all.0, All-append-one xs c all.1 one)

-- The names in a folder are behind nothing, in the current folder, or behind the path of a folder
-- with its separator.
abbrev pub IsParent : Option Bool → List ℕ → Type 0
IsParent kind front = (front ≡ []) ⊎ ((ends_in_separator front ≡ true) × (kind ≡ some true))
