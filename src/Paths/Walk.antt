-- ===== src/Paths/Walk.antt =====
-- The loop of `doRecursiveCreateDir` of tools/iso2svod/source/util.c on a host.
use xe_build.Base.{
  ℕ, ◌≡◌, ◌≢◌, ◌⊎◌, refl, sym, ap, ◌∙◌, Bool, true, false, Option, none, some, List, [], ◌∷◌, ◌++◌,
  arith, ◌==◌, Bool-cases, inl, inr, is_some, All, ◌&&◌,
}
use mathlib.Core.Path.{subst}
use xe_build.Stfs.{same_hash}
use xe_build.Stfs.Sound.{same_hash_iff}
use xe_build.Paths.{
  separator, without_separator, ends_in_separator, Made, made, already, refused, make_dirs,
}
use xe_build.Paths.Names.{
  append_assoc, append_nil, with_separator, has_characters, IsName, has_names,
  has_characters-append, All-append-one, IsParent,
}

-- What `stat` and `mkdir` of the host do: a folder that is made is there, a path that is already
-- there was there and stays what it is, no other path changes, and no name is refused in a folder
-- that is there.
pub record IsHost {H : Type 0} (stat : H → List ℕ → Option Bool) (mkdir : H → List ℕ → H × Made)
    : Type 0 where
  pub makes : (h : H) (p : List ℕ) → (mkdir h p).1 ≡ made → stat (mkdir h p).0 p ≡ some true
  pub finds : (h : H) (p : List ℕ) → (mkdir h p).1 ≡ already → is_some (stat h p) ≡ true
  pub keeps : (h : H) (p : List ℕ) → (mkdir h p).1 ≡ already → stat (mkdir h p).0 p ≡ stat h p
  pub others : (h : H) (p q : List ℕ) → p ≢ q → stat (mkdir h p).0 q ≡ stat h q
  pub allows :
      (h : H) (front name : List ℕ)
      → IsParent (stat h (without_separator front)) front
      → IsName name
      → (mkdir h (front ++ name)).1 ≢ refused

abbrev pub data_part : List ℕ
data_part = 0x2e ∷ 0x64 ∷ 0x61 ∷ 0x74 ∷ 0x61 ∷ separator ∷ []

pub data_ends : ends_in_separator data_part ≡ true
unfolding ends_in_separator
data_ends = refl

abbrev pub exist_number : Option Bool → ℕ
exist_number o = elim o as (λ _. ℕ) [ none ↦ 0 | some true ↦ 1 | some false ↦ 2 ]

Made-cases : (m : Made) → (m ≡ made) ⊎ ((m ≡ already) ⊎ (m ≡ refused))
Made-cases made = inl refl
Made-cases already = inr (inl refl)
Made-cases refused = inr (inr refl)

module _ {H : Type 0} (stat : H → List ℕ → Option Bool) (mkdir : H → List ℕ → H × Made)
    (host_laws : IsHost stat mkdir) where
  -- No file stands where a path goes through a folder.
  abbrev pub HasNoFile : H → List ℕ → Type 0
  HasNoFile h path = (p q : List ℕ) → p ++ (separator ∷ q) ≡ path → stat h p ≢ some false

  found_folder :
      (h : H) (p : List ℕ) (o : Option Bool)
      → stat h p ≡ o
      → (mkdir h p).1 ≡ already
      → stat h p ≢ some false
      → o ≡ some true
  found_folder h p none e found folder = absurd (cc (host_laws.finds h p found, ap is_some e))
  found_folder h p (some true) e found folder = refl
  found_folder h p (some false) e found folder = absurd (folder e)

  -- The folder of one separator, whose parent is there, is there afterwards.
  folder_made :
      (h : H) (p : List ℕ)
      → (mkdir h p).1 ≢ refused
      → stat h p ≢ some false
      → stat (mkdir h p).0 p ≡ some true
  folder_made h p allowed folder = elim (Made-cases (mkdir h p).1) [
    | inl e ↦ host_laws.makes h p e
    | inr (inr e) ↦ absurd (allowed e)
    | inr (inl e) ↦ host_laws.keeps h p e ∙ found_folder h p (stat h p) refl e folder
  ]

  still_no_file :
      (h : H) (p path : List ℕ)
      → stat (mkdir h p).0 p ≡ some true
      → HasNoFile h path
      → HasNoFile (mkdir h p).0 path
  still_no_file h p path there clear q rest e = elim (Bool-cases (same_hash p q)) [
    | inl same ↦
        let eq : p ≡ q = (same_hash_iff p q).0 same in
        λ file. cc (subst (λ t. stat (mkdir h p).0 t ≡ some true) eq there, file)
    | inr differ ↦
        let other : p ≢ q = λ eq. cc ((same_hash_iff p q).1 eq, differ) in
        λ file. clear q rest e (sym (host_laws.others h p q other) ∙ file)
  ]

  -- One character of the loop.
  make_dirs_next :
      (h : H) (before : List ℕ) (c : ℕ) (cs : List ℕ)
      → (c == separator) ≡ true
      → (mkdir h before).1 ≢ refused
      → make_dirs stat mkdir h before (c ∷ cs)
        ≡ make_dirs stat mkdir (mkdir h before).0 (before ++ (c ∷ [])) cs
  unfolding make_dirs
  make_dirs_next h before c cs is allowed = elim (Made-cases (mkdir h before).1) [
    | inl e ↦ rw (is, e, make_dirs) refl
    | inr (inl e) ↦ rw (is, e, make_dirs) refl
    | inr (inr e) ↦ absurd (allowed e)
  ]

  make_dirs_skip :
      (h : H) (before : List ℕ) (c : ℕ) (cs : List ℕ)
      → (c == separator) ≡ false
      → make_dirs stat mkdir h before (c ∷ cs) ≡ make_dirs stat mkdir h (before ++ (c ∷ [])) cs
  unfolding make_dirs
  make_dirs_skip h before c cs not = rw (not, make_dirs) refl

  -- The loop stands in a name behind a folder that is there.
  pub record Walk (h : H) (before rest : List ℕ) : Type 0 where
    pub front : List ℕ
    pub name : List ℕ
    pub split : before ≡ front ++ name
    pub parent : IsParent (stat h (without_separator front)) front
    pub no_separator : All (λ c. (c == separator) ≡ false) name
    pub named : has_names (has_characters name) rest ≡ true
    pub no_file : HasNoFile h (before ++ rest)

  both : (a b : Bool) → (a && b) ≡ true → (a ≡ true) × (b ≡ true)
  both true b e = (refl, e)
  both false b e = absurd cc

  Walk-named :
      (h : H) (before : List ℕ) (c : ℕ) (cs : List ℕ) (w : Walk h before (c ∷ cs))
      → (c == separator) ≡ true
      → (has_characters w.name ≡ true) × (has_names false cs ≡ true)
  unfolding has_names
  Walk-named h before c cs w is =
      both (has_characters w.name) (has_names false cs) (sym (rw is refl) ∙ w.named)

  Walk-allows :
      (h : H) (before : List ℕ) (c : ℕ) (cs : List ℕ)
      → Walk h before (c ∷ cs)
      → (c == separator) ≡ true
      → (mkdir h before).1 ≢ refused
  Walk-allows h before c cs w is =
      subst (λ p. (mkdir h p).1 ≢ refused) (sym w.split)
        (host_laws.allows h w.front w.name w.parent
          ((Walk-named h before c cs w is).0, w.no_separator))

  Walk-folder :
      (h : H) (before : List ℕ) (c : ℕ) (cs : List ℕ)
      → Walk h before (c ∷ cs)
      → (c == separator) ≡ true
      → stat (mkdir h before).0 before ≡ some true
  Walk-folder h before c cs w is =
      let same : separator ≡ c = ground (arith, is) in
      folder_made h before (Walk-allows h before c cs w is)
        (w.no_file before cs (ap (λ d. before ++ (d ∷ cs)) same))

  Walk-enter :
      (h : H) (before : List ℕ) (c : ℕ) (cs : List ℕ)
      → Walk h before (c ∷ cs)
      → (c == separator) ≡ true
      → Walk (mkdir h before).0 (before ++ (c ∷ [])) cs
  Walk-enter h before c cs w is =
      let h' = (mkdir h before).0 in
      let same : separator ≡ c = ground (arith, is) in
      let there = Walk-folder h before c cs w is in
      let (ends, without) = with_separator before in
      record {
        front = before ++ (c ∷ []);
        name = [];
        split = sym (append_nil (before ++ (c ∷ [])));
        parent = inr (
            subst
              (λ d.
                (ends_in_separator (before ++ (d ∷ [])) ≡ true)
                × (stat h' (without_separator (before ++ (d ∷ []))) ≡ some true))
              same (ends, ap (stat h') without ∙ there));
        no_separator = tt;
        named = (Walk-named h before c cs w is).1;
        no_file =
            subst (HasNoFile h') (sym (append_assoc before (c ∷ []) cs))
              (still_no_file h before (before ++ (c ∷ cs)) there w.no_file);
      }

  Walk-skip :
      (h : H) (before : List ℕ) (c : ℕ) (cs : List ℕ)
      → Walk h before (c ∷ cs)
      → (c == separator) ≡ false
      → Walk h (before ++ (c ∷ [])) cs
  unfolding has_names
  Walk-skip h before c cs w not = record {
    front = w.front;
    name = w.name ++ (c ∷ []);
    split = ap (λ p. p ++ (c ∷ [])) w.split ∙ append_assoc w.front w.name (c ∷ []);
    parent = w.parent;
    no_separator = All-append-one w.name c w.no_separator not;
    named =
        ap (λ b. has_names b cs) (has_characters-append w.name c) ∙ (sym (rw not refl) ∙ w.named);
    no_file = subst (HasNoFile h) (sym (append_assoc before (c ∷ []) cs)) w.no_file;
  }

  pub make_dirs-IsFolder :
      (h : H) (before rest : List ℕ)
      → Walk h before rest
      → ends_in_separator rest ≡ true
      → stat (make_dirs stat mkdir h before rest).0 (before ++ without_separator rest) ≡ some true
  unfolding make_dirs ends_in_separator without_separator
  make_dirs-IsFolder h before [] w ends = absurd cc
  make_dirs-IsFolder h before (c ∷ []) w ends =
      let without : without_separator (c ∷ []) ≡ [] = rw ends refl in
      let target : before ++ without_separator (c ∷ []) ≡ before =
        ap (λ t. before ++ t) without ∙ append_nil before in
      subst (λ q. stat (make_dirs stat mkdir h before (c ∷ [])).0 q ≡ some true) (sym target)
        (ap (λ (r : H × Bool). stat (r.0) before)
            (make_dirs_next h before c [] ends (Walk-allows h before c [] w ends))
          ∙ Walk-folder h before c [] w ends)
  make_dirs-IsFolder h before (c ∷ d ∷ cs) w ends =
      let t = without_separator (d ∷ cs) in
      let target : (before ++ (c ∷ [])) ++ t ≡ before ++ (c ∷ t) = append_assoc before (c ∷ []) t in
      elim (Bool-cases (c == separator)) [
        | inl is ↦
            let h' = (mkdir h before).0 in
            ap (λ (r : H × Bool). stat (r.0) (before ++ (c ∷ t)))
              (make_dirs_next h before c (d ∷ cs) is (Walk-allows h before c (d ∷ cs) w is))
            ∙ subst
                (λ q. stat (make_dirs stat mkdir h' (before ++ (c ∷ [])) (d ∷ cs)).0 q ≡ some true)
                target
                (make_dirs-IsFolder h' (before ++ (c ∷ [])) (d ∷ cs)
                  (Walk-enter h before c (d ∷ cs) w is) ends)
        | inr not ↦
            ap (λ (r : H × Bool). stat (r.0) (before ++ (c ∷ t)))
              (make_dirs_skip h before c (d ∷ cs) not)
            ∙ subst
                (λ q. stat (make_dirs stat mkdir h (before ++ (c ∷ [])) (d ∷ cs)).0 q ≡ some true)
                target
                (make_dirs-IsFolder h (before ++ (c ∷ [])) (d ∷ cs)
                  (Walk-skip h before c (d ∷ cs) w not) ends)
      ]
