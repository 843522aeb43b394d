-- ===== src/Paths.antt =====
-- The output folder: `isDirExist` and `createDirRecursive` of tools/iso2svod/source/util.c, and
-- `prepareOutputPath` of tools/iso2svod/source/main.c. The host is a parameter: its state, what
-- `stat` says of a path (a folder or a file, if there is one), and what `mkdir` does. A path is the
-- list of its characters without the zero at the end; the buffers are taken to be long enough.
pub mod Names
pub mod Walk
pub mod Folders
use xe_build.Base.{
  ℕ, zero, suc, ◌+◌, ◌/◌, Bool, true, false, ◌&&◌, Option, none, some, List, [], ◌∷◌, ◌++◌, take,
  drop, ◌==◌, ◌!=◌, if◌then◌else◌, low_bits,
}
use xe_build.Bytes.{byte_at, get_be32}
use xe_build.Svod.Disc.{Memory}
use xe_build.Xex.Info.{word_at, upper_digit}
use xe_build.Header.{execution_id_at}

abbrev pub separator : ℕ
separator = 0x5c

-- A path without the separator at its end, and one with it.
pub without_separator : List ℕ → List ℕ
without_separator [] = []
without_separator (c ∷ []) = if c == separator then [] else c ∷ []
without_separator (c ∷ d ∷ cs) = c ∷ without_separator (d ∷ cs)

unfoldable pub ends_in_separator : List ℕ → Bool
ends_in_separator [] = false
ends_in_separator (c ∷ []) = c == separator
ends_in_separator (c ∷ d ∷ cs) = ends_in_separator (d ∷ cs)

-- The result of `mkdir`: 0, `ERROR_ALREADY_EXISTS`, or another error.
pub data Made : Type 0 where
  made : Made
  already : Made
  refused : Made

-- Where the loop of `doRecursiveCreateDir` begins.
abbrev pub first_char : List ℕ → ℕ
first_char dirname =
    if byte_at dirname 1 == 0x3a && byte_at dirname 2 == separator
    then 3
    else if byte_at dirname 0 == 0x2e && byte_at dirname 1 == separator
    then 2
    else 0

-- `dtmp` of `createDirRecursive` up to the first zero. The separator that is added takes the place
-- of the terminator, and the loop looks at the byte behind it too.
abbrev pub create_path : ℕ → List ℕ → List ℕ
create_path behind dirname =
    if ends_in_separator dirname
    then dirname
    else dirname ++ (separator ∷ (if behind == 0 then [] else behind ∷ []))

-- `%08X`.
unfoldable pub pad_hex : ℕ → ℕ → List ℕ → List ℕ
pad_hex zero n text = text
pad_hex (suc left) n text = pad_hex left (n / 16) (upper_digit (low_bits n 4) ∷ text)

abbrev pub hex32 : ℕ → List ℕ
hex32 n = pad_hex 8 n []

-- `tout`, `outname`, and the folder that both paths are in.
abbrev pub out_folder : List ℕ → List ℕ
out_folder arg = if ends_in_separator arg then arg else arg ++ (separator ∷ [])

abbrev pub out_name : List ℕ → List ℕ
out_name media =
    hex32 (get_be32 media 0)
    ++ hex32 (get_be32 media 4)
    ++ hex32 (get_be32 media 8)
    ++ hex32 (get_be32 media 0xc)

abbrev pub header_path : List ℕ → List ℕ → Memory → List ℕ
header_path arg media h =
    out_folder arg
    ++ hex32 (word_at h (execution_id_at + 0xc))
    ++ (separator ∷ [])
    ++ hex32 0x7000
    ++ (separator ∷ [])
    ++ out_name media

abbrev pub base_out_path : List ℕ → List ℕ → Memory → List ℕ
base_out_path arg media h =
    header_path arg media h ++ (0x2e ∷ 0x64 ∷ 0x61 ∷ 0x74 ∷ 0x61 ∷ separator ∷ [])

module _ {H : Type 0} (stat : H → List ℕ → Option Bool) (mkdir : H → List ℕ → H × Made) where
  unfoldable pub is_dir_exist : H → List ℕ → ℕ
  is_dir_exist host dirname = elim (stat host (without_separator dirname)) [
    | none ↦ 0
    | some true ↦ 1
    | some false ↦ 2
  ]

  -- The loop of `doRecursiveCreateDir`, with what is in front of `cur` and what is left.
  pub make_dirs : H → List ℕ → List ℕ → H × Bool
  make_dirs host before [] = (host, true)
  make_dirs host before (c ∷ cs) = elim (c == separator) [
    | false ↦ make_dirs host (before ++ (c ∷ [])) cs
    | true ↦
        let r = mkdir host before in
        elim (r.1) [
          | refused ↦ (r.0, false)
          | made ↦ make_dirs r.0 (before ++ (c ∷ [])) cs
          | already ↦ make_dirs r.0 (before ++ (c ∷ [])) cs
        ]
  ]

  pub do_recursive_create_dir : H → List ℕ → H × Bool
  do_recursive_create_dir host dirname =
      make_dirs host (take (first_char dirname) dirname) (drop (first_char dirname) dirname)

  -- `behind` is the byte behind the separator that is added.
  pub create_dir_recursive : ℕ → H → List ℕ → H × Bool
  create_dir_recursive behind host dirname =
      do_recursive_create_dir host (create_path behind dirname)

  -- The result and the host. What `createDirRecursive` returns is not looked at.
  pub prepare_output_path : ℕ → H → List ℕ → List ℕ → Memory → H × Bool
  prepare_output_path behind host arg media h =
      let path = base_out_path arg media h in
      if is_dir_exist host path != 0
      then (host, false)
      else (let made = create_dir_recursive behind host path in
          (made.0, is_dir_exist made.0 path == 1))
