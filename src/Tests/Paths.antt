-- ===== src/Tests/Paths.antt =====
-- A host whose state says what stands at a path, and which refuses a folder without a parent.
use xe_build.Base.{
  All, ap, ◌∙◌, false, ℕ, ◌≡◌, ◌≢◌, refl, Bool, true, Option, none, some, List, [], ◌∷◌, ◌++◌, ◌==◌,
  if◌then◌else◌, Bool-cases, inl, inr, is_some,
}
use xe_build.Bytes.{get_be32}
use xe_build.Svod.Disc.{slice}
use xe_build.Stfs.{same_hash}
use xe_build.Stfs.Sound.{same_hash_iff}
use xe_build.Paths.{
  separator, without_separator, pad_hex, ends_in_separator, Made, made, already, refused,
  base_out_path, is_dir_exist, prepare_output_path,
}
use xe_build.Paths.Names.{has_names, IsName, IsParent}
use xe_build.Paths.Walk.{IsHost}
use xe_build.Paths.Folders.{IsPath, prepare_output_path_lem}

abbrev Host : Type 0
Host = List ℕ → Option Bool

abbrev stat : Host → List ℕ → Option Bool
stat h p = h p

abbrev with_folder : Host → List ℕ → Host
with_folder h p q = if same_hash p q then some true else h q

unfoldable has_separator : List ℕ → Bool
has_separator [] = false
has_separator (c ∷ cs) = if c == separator then true else has_separator cs

-- The path up to its last separator.
unfoldable folder_of : List ℕ → List ℕ
folder_of [] = []
folder_of (c ∷ cs) =
    let rest = folder_of cs in
    if c == separator then c ∷ rest else if has_separator cs then c ∷ rest else []

abbrev is_folder : Option Bool → Bool
is_folder none = false
is_folder (some b) = b

unfoldable has_parent : Host → List ℕ → Bool
has_parent h [] = true
has_parent h (c ∷ cs) = is_folder (h (without_separator (c ∷ cs)))

abbrev mkdir : Host → List ℕ → Host × Made
mkdir h p =
    if is_some (h p)
    then (h, already)
    else if has_parent h (folder_of p)
    then (with_folder h p, made)
    else (h, refused)

name_folder :
    (name : List ℕ)
    → All (λ c. (c == separator) ≡ false) name
    → (has_separator name ≡ false) × (folder_of name ≡ [])
unfolding has_separator folder_of
name_folder [] all = (refl, refl)
name_folder (c ∷ cs) all =
    let (none_there, rest) = name_folder cs all.1 in
    (rw (all.0, has_separator) none_there, rw (all.0, none_there, folder_of) refl)

folder_of-append :
    (front name : List ℕ)
    → ends_in_separator front ≡ true
    → All (λ c. (c == separator) ≡ false) name
    → (has_separator (front ++ name) ≡ true) × (folder_of (front ++ name) ≡ front)
unfolding has_separator folder_of ends_in_separator
folder_of-append [] name ends all = absurd cc
folder_of-append (x ∷ []) name ends all =
    let (none_there, rest) = name_folder name all in
    (rw (ends, has_separator) refl, rw (ends, rest, folder_of) refl)
folder_of-append (x ∷ y ∷ xs) name ends all =
    let (there, rest) = folder_of-append (y ∷ xs) name ends all in
    elim (Bool-cases (x == separator)) [
      | inl e ↦ (rw (e, has_separator) refl, rw (e, folder_of) (ap (λ t. x ∷ t) rest))
      | inr e ↦ (rw (e, has_separator) there, rw (e, there, folder_of) (ap (λ t. x ∷ t) rest))
    ]

parent_there :
    (h : Host) (front name : List ℕ)
    → IsParent (h (without_separator front)) front
    → IsName name
    → has_parent h (folder_of (front ++ name)) ≡ true
unfolding has_parent
parent_there h front name (inl e) is_name =
    let here : folder_of (front ++ name) ≡ [] =
      ap (λ f. folder_of (f ++ name)) e ∙ (name_folder name is_name.1).1 in
    ap (has_parent h) here
parent_there h [] name (inr (ends, there)) is_name =
    ap (has_parent h) (name_folder name is_name.1).1
parent_there h (c ∷ cs) name (inr (ends, there)) is_name =
    ap (has_parent h) (folder_of-append (c ∷ cs) name ends is_name.1).1 ∙ ap is_folder there

mkdir_allows : (h : Host) (p : List ℕ) → has_parent h (folder_of p) ≡ true → (mkdir h p).1 ≢ refused
mkdir_allows h p parent = elim (Bool-cases (is_some (h p))) [
  | inl there ↦ rw there (λ e. absurd cc)
  | inr new ↦ rw (new, parent) (λ e. absurd cc)
]

mkdir-IsHost : IsHost stat mkdir
mkdir-IsHost = record {
  makes = λ h p. elim (Bool-cases (is_some (h p))) [
    | inl there ↦ rw there (λ e. absurd cc)
    | inr new ↦ elim (Bool-cases (has_parent h (folder_of p))) [
      | inl parent ↦ let same = (same_hash_iff p p).1 refl in rw (new, parent) (λ e. rw same refl)
      | inr orphan ↦ rw (new, orphan) (λ e. absurd cc)
    ]
  ];
  finds = λ h p. elim (Bool-cases (is_some (h p))) [
    | inl there ↦ λ e. there
    | inr new ↦ elim (Bool-cases (has_parent h (folder_of p))) [
      | inl parent ↦ rw (new, parent) (λ e. absurd cc)
      | inr orphan ↦ rw (new, orphan) (λ e. absurd cc)
    ]
  ];
  keeps = λ h p. elim (Bool-cases (is_some (h p))) [
    | inl there ↦ rw there (λ e. refl)
    | inr new ↦ elim (Bool-cases (has_parent h (folder_of p))) [
      | inl parent ↦ rw (new, parent) (λ e. absurd cc)
      | inr orphan ↦ rw (new, orphan) (λ e. absurd cc)
    ]
  ];
  others = λ h p q other. elim (Bool-cases (is_some (h p))) [
    | inl there ↦ rw there refl
    | inr new ↦ elim (Bool-cases (has_parent h (folder_of p))) [
      | inr orphan ↦ rw (new, orphan) refl
      | inl parent ↦ elim (Bool-cases (same_hash p q)) [
        | inl same ↦ absurd (other ((same_hash_iff p q).0 same))
        | inr apart ↦ rw (new, parent, apart) refl
      ]
    ]
  ];
  allows = λ h front name there is_name.
      mkdir_allows h (front ++ name) (parent_there h front name there is_name);
}

abbrev empty : Host
empty p = none

-- The path `out`.
abbrev out : List ℕ
out = 0x6f ∷ 0x75 ∷ 0x74 ∷ []

out-IsPath : IsPath stat mkdir mkdir-IsHost empty (base_out_path out [] (λ k. 1))
unfolding has_names pad_hex get_be32 slice ends_in_separator
out-IsPath = record { start = inl refl; names = refl; no_file = λ p q e. λ k. cc k }

prepare_output_path_lem_example :
    let path = base_out_path out [] (λ k. 1) in
    let r = prepare_output_path stat mkdir 0 empty out [] (λ k. 1) in
    (r.1 ≡ (is_dir_exist stat mkdir empty path == 0))
    × (if is_dir_exist stat mkdir empty path == 0
        then is_dir_exist stat mkdir r.0 path ≡ 1
        else r.0 ≡ empty)
prepare_output_path_lem_example =
    prepare_output_path_lem stat mkdir mkdir-IsHost 0 empty out [] (λ k. 1) out-IsPath
