-- ===== src/Paths/Folders.antt =====
-- When `prepareOutputPath` succeeds.
use xe_build.Base.{
  ℕ, ◌≤◌, ◌<◌, ◌≡◌, refl, sym, ap, ◌∙◌, Bool, true, false, Option, none, some, List, [], length,
  length-append, take, drop, arith, ◌==◌, if◌then◌else◌, Bool-cases, Option-cases, inl, inr,
}
use mathlib.Core.Path.{subst}
use xe_build.Svod.Disc.{Memory}
use xe_build.Paths.{
  without_separator, ends_in_separator, Made, first_char, create_path, header_path, base_out_path,
  is_dir_exist, make_dirs, do_recursive_create_dir, create_dir_recursive, prepare_output_path,
}
use xe_build.Paths.Names.{
  append_nil, ends-append, split_path, append-take-drop, has_names, IsParent,
}
use xe_build.Paths.Walk.{
  IsHost, HasNoFile, Walk, make_dirs-IsFolder, data_part, data_ends, exist_number,
}

module _ {H : Type 0} (stat : H → List ℕ → Option Bool) (mkdir : H → List ℕ → H × Made)
    (host_laws : IsHost stat mkdir) where
  -- A path that can be made: the folder that the loop begins in is there, each of its separators
  -- has a name in front of it, and no file stands where it goes through a folder.
  pub record IsPath (h : H) (path : List ℕ) : Type 0 where
    pub start :
        IsParent
          (stat h (without_separator (take (first_char path) path)))
          (take (first_char path) path)
    pub names : has_names false (drop (first_char path) path) ≡ true
    pub no_file : HasNoFile stat mkdir host_laws h path

  -- `createDirRecursive` for a path that ends in a separator.
  create_dir_recursive-IsFolder :
      (behind : ℕ) (h : H) (path : List ℕ)
      → ends_in_separator path ≡ true
      → 3 < length path
      → IsPath h path
      → stat (create_dir_recursive stat mkdir behind h path).0 (without_separator path) ≡ some true
  unfolding create_dir_recursive do_recursive_create_dir
  create_dir_recursive-IsFolder behind h path ends long is_path =
      let n = first_char path in
      let le : n ≤ 3 = ground arith in
      let (ends', same) = split_path n path (omega (arith, le, long)) ends in
      let start : Walk stat mkdir host_laws h (take n path) (drop n path) = record {
        front = take n path;
        name = [];
        split = sym (append_nil (take n path));
        parent = is_path.start;
        no_separator = tt;
        named = is_path.names;
        no_file =
            subst (HasNoFile stat mkdir host_laws h) (sym (append-take-drop n path))
              is_path.no_file;
      } in
      let folder =
        make_dirs-IsFolder stat mkdir host_laws h (take n path) (drop n path) start ends' in
      let at : create_path behind path ≡ path = rw ends refl in
      rw at (
        subst (λ q. stat (make_dirs stat mkdir h (take n path) (drop n path)).0 q ≡ some true) same
          folder)

  is_dir_exist_lem :
      (h : H) (path : List ℕ) (o : Option Bool)
      → stat h (without_separator path) ≡ o
      → is_dir_exist stat mkdir h path ≡ exist_number o
  unfolding is_dir_exist
  is_dir_exist_lem h path o e = ap exist_number e

  -- On a host whose `mkdir` refuses no name in a folder that is there, but may refuse one whose
  -- parent is missing, `prepareOutputPath` succeeds exactly if nothing stands at the path of the
  -- output folder; then a folder stands there afterwards. Otherwise it leaves the host as it is.
  -- The path begins in a folder that is there (a drive, `.`, or the current folder), each of its
  -- separators behind that has a name in front of it, and no file stands where it goes through a
  -- folder.
  pub prepare_output_path_lem :
      (behind : ℕ) (h : H) (arg media : List ℕ) (header : Memory)
      → IsPath h (base_out_path arg media header)
      → let path = base_out_path arg media header in
        let r = prepare_output_path stat mkdir behind h arg media header in
        (r.1 ≡ (is_dir_exist stat mkdir h path == 0))
        × (if is_dir_exist stat mkdir h path == 0
            then is_dir_exist stat mkdir r.0 path ≡ 1
            else r.0 ≡ h)
  unfolding prepare_output_path
  prepare_output_path_lem behind h arg media header is_path =
      let path = base_out_path arg media header in
      let front = header_path arg media header in
      let ends : ends_in_separator path ≡ true = ends-append front 0x2e _ ∙ data_ends in
      let long : 3 < length path = omega (arith, length-append front data_part) in
      elim (Option-cases (stat h (without_separator path))) [
        | inl absent ↦
            let folder = create_dir_recursive-IsFolder behind h path ends long is_path in
            let zero = is_dir_exist_lem h path none absent in
            let one =
              is_dir_exist_lem (create_dir_recursive stat mkdir behind h path).0 path (some true)
                folder in
            rw (zero, one) (refl, refl)
        | inr g ↦
            let (kind, there) = g in
            elim (Bool-cases kind) [
              | inl e ↦
                  let one = is_dir_exist_lem h path (some true) (there ∙ ap some e) in
                  rw one (refl, refl)
              | inr e ↦
                  let two = is_dir_exist_lem h path (some false) (there ∙ ap some e) in
                  rw two (refl, refl)
            ]
      ]
