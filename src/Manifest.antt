-- ===== src/Manifest.antt =====
-- tools/su_check/su_check/main.c: the check of a system update manifest and of the files that it
-- names. Reading a file (`readFileToBuf`) and `XeCryptSha` are parameters. Offsets into the body
-- are not checked by the program; here a read behind the end gives bytes that are not the file's.
-- The paths of the copies are not modelled: `copied` lists the names of the files that are copied.
-- `none` stands for a container check that ran out of fuel, and for a string that does not fit its
-- buffer. The buffer of an item's strings is not set before the first string; here it starts out
-- empty.
pub mod Header
pub mod Counts
use mathlib.Core.Option
use xe_build.Base.{
  ℕ, zero, suc, ◌+◌, ◌*◌, ◌/◌, Bool, true, false, ◌&&◌, ◌||◌, Option, none, some, List, [], ◌∷◌,
  ◌++◌, length, ltb, ◌==◌, ◌!=◌, if◌then◌else◌, u32,
}
use xe_build.Bytes.{get_be16, get_be32}
use xe_build.Svod.Disc.{Memory, slice}
use xe_build.Stfs.{same_hash, con_check_header}

-- `bswap32` of a field at an offset.
abbrev pub field : Memory → ℕ → ℕ
field bytes offset = get_be32 (slice bytes offset 4) 0

abbrev pub schema_of : Memory → ℕ
schema_of bytes = field bytes (0x138 + 0x10)

-- `verifyManifestHeader`: the schema with its magic, the magic of the header, and the hash.
abbrev pub known_schema : Memory → Bool
known_schema bytes =
    let magic = field bytes 0x138 in
    if schema_of bytes == 1
    then magic == 0x786d616e
    else if schema_of bytes == 3
    then (magic == 0x7873796d) || (magic == 0x786f6e6d)
    else false

pub verify_manifest_header : (List ℕ → List ℕ) → Memory → Bool
verify_manifest_header sha bytes =
    if known_schema bytes
    then (let ret = field bytes 0 == 0x584d4e50 in
        if same_hash (sha (slice bytes 0x138 (field bytes (0x138 + 4)))) (slice bytes 0x24 0x14)
        then ret
        else false)
    else false

-- The bytes of a C string, and `getManifestString`, which leaves the buffer if the length is 0. A
-- string and its terminator go to 512 bytes with no test: `none` is a write behind them.
pub c_string : List ℕ → List ℕ
c_string [] = []
c_string (b ∷ bs) = if b == 0 then [] else b ∷ c_string bs

pub get_manifest_string : Memory → ℕ → List ℕ → Option (List ℕ)
get_manifest_string body offset sbuf =
    let len = get_be16 (slice body offset 2) 0 in
    if len != 0
    then if ltb len 512 then some (c_string (slice body (offset + 2) len)) else none
    else some sbuf

-- The same for the offset in a field, which 0 leaves out.
pub read_string : Memory → ℕ → List ℕ → Option (List ℕ)
read_string body offset sbuf =
    if offset != 0 then get_manifest_string body offset sbuf else some sbuf

-- `ttlFilesChecked` and the other counters, and the files that were copied.
pub record Totals : Type 0 where
  pub files_checked : ℕ
  pub files_ok : ℕ
  pub con_checked : ℕ
  pub con_ok : ℕ
  pub copied : List (List ℕ)

-- `MANIFEST_BASE`, `SU_PACKAGE` and the name of the entry that stands for it.
abbrev pub manifest_base : List ℕ
manifest_base =
    0x24 ∷ 0x53 ∷ 0x79 ∷ 0x73 ∷ 0x74 ∷ 0x65 ∷ 0x6d ∷ 0x55 ∷ 0x70 ∷ 0x64 ∷ 0x61 ∷ 0x74 ∷ 0x65 ∷ 0x5c
    ∷ []

abbrev pub su_package : List ℕ
su_package =
    0x73 ∷ 0x75 ∷ 0x32 ∷ 0x30 ∷ 0x30 ∷ 0x37 ∷ 0x36 ∷ 0x30 ∷ 0x30 ∷ 0x30 ∷ 0x5f ∷ 0x30 ∷ 0x30 ∷ 0x30
    ∷ 0x30 ∷ 0x30 ∷ 0x30 ∷ 0x30 ∷ 0x30 ∷ []

abbrev pub flash_name : List ℕ
flash_name = 0x66 ∷ 0x6c ∷ 0x61 ∷ 0x73 ∷ 0x68 ∷ []

-- The buffer and the length that `readFileToBuf` gives for a name.
abbrev pub Files : Type 0
Files = List ℕ → Option (Memory × ℕ)

-- An item once its strings are read: `srcFile`, what `sbuf` holds, and the fields that count.
pub record Item : Type 0 where
  pub src_file : List ℕ
  pub is_flash : Bool
  pub version : ℕ
  pub entry_type : ℕ
  pub file_size : ℕ
  pub data_hash : List ℕ

module _ (sha : List ℕ → List ℕ) (read : Files) (copy_to_folder : Bool) where
  abbrev pub count_file : List ℕ → Bool → Totals → Totals
  count_file name good t = record t {
    files_checked = u32 (t.files_checked + 1);
    files_ok = if good then u32 (t.files_ok + 1) else t.files_ok;
    copied = if good && copy_to_folder then t.copied ++ (name ∷ []) else t.copied;
  }

  -- `verifyFile`.
  pub verify_file : List ℕ → ℕ → List ℕ → Totals → Totals
  verify_file name len hash t =
      if len != 0
      then elim (read name) [
        | none ↦ t
        | some (bytes, flen) ↦
            if flen != 0 then count_file name (same_hash (sha (slice bytes 0 len)) hash) t else t
      ]
      else t

  abbrev pub count_container : List ℕ → Bool → Bool → Totals → Totals
  count_container name do_copy good t = record t {
    con_checked = u32 (t.con_checked + 1);
    con_ok = if good then u32 (t.con_ok + 1) else t.con_ok;
    copied = if good && (do_copy && copy_to_folder) then t.copied ++ (name ∷ []) else t.copied;
  }

  -- `verifyContainer`, with the fuel that its length asks for.
  pub verify_container : List ℕ → ℕ → ℕ → Bool → Bool → Totals → Option Totals
  verify_container name len exp_ver do_copy is_supd t =
      if len != 0
      then elim (read name) [
        | none ↦ some t
        | some (bytes, flen) ↦
            if flen != 0
            then Option.map (λ good. count_container name do_copy good t)
                (con_check_header sha bytes (flen / 0xab000 + 1) flen exp_ver is_supd)
            else some t
      ]
      else some t

  -- What is checked for an item of schema 3 and of schema 1.
  pub check_item : Item → Totals → Option Totals
  check_item i t =
      if i.is_flash
      then verify_container (manifest_base ++ su_package) 1 i.version false true t
      else if i.entry_type == 2
      then verify_container i.src_file i.file_size i.version true false t
      else if i.entry_type == 3
      then some (verify_file i.src_file i.file_size i.data_hash t)
      else some t

-- The strings of an item at `at` in their order, for the offsets of its fields; `none` for an item
-- without a source name. The third component is `sbuf` behind it. There is no result if a string
-- does not fit, or the source name does not fit `srcFile`, of `MAX_PATH` bytes, behind the base.
abbrev pub Strings : Type 0
Strings = Option (List ℕ × Bool) × List ℕ

-- The last two strings of an item with a source name, which is read again.
pub read_source : Memory → ℕ → ℕ → List ℕ → List ℕ → Option Strings
read_source body src dest s1 s3 = elim (get_manifest_string body src s3) [
  | none ↦ none
  | some s4 ↦
      if same_hash s4 flash_name
      then some (some (manifest_base ++ s1, true), s4)
      else Option.map (λ s5. (some (manifest_base ++ s1, false), s5))
          (get_manifest_string body dest s4)
]

pub read_strings : Memory → ℕ → ℕ → ℕ → List ℕ → Option Strings
read_strings body src int dest sbuf = elim (read_string body src sbuf) [
  | none ↦ none
  | some s1 ↦
      if src != 0 && ltb 259 (length manifest_base + length s1)
      then none
      else elim (read_string body int s1) [
        | none ↦ none
        | some s2 ↦ elim (read_string body dest s2) [
          | none ↦ none
          | some s3 ↦ if src != 0 then read_source body src dest s1 s3 else some (none, s3)
        ]
      ]
]

abbrev pub version_at : Memory → ℕ → ℕ
version_at body offset = if offset != 0 then field body offset else 0

-- `SU_ITEM_ENTRY` and `SU_ITEM_ENTRY_V1`.
pub read_item : Memory → ℕ → List ℕ → Option (Option Item × List ℕ)
read_item body at sbuf =
    Option.map
      (λ (r : Strings). (
        Option.map
            (λ p. record {
              src_file = p.0;
              is_flash = p.1;
              version = version_at body (field body (at + 0xc));
              entry_type = field body (at + 0x18);
              file_size = field body (at + 8);
              data_hash = slice body (at + 0x38) 0x14;
            })
            r.0,
        r.1,
      ))
      (read_strings body (field body at) (field body (at + 0x1c)) (field body (at + 0x20)) sbuf)

pub read_item_v1 : Memory → ℕ → List ℕ → Option (Option Item × List ℕ)
read_item_v1 body at sbuf =
    Option.map
      (λ (r : Strings). (
        Option.map
            (λ p. record {
              src_file = p.0;
              is_flash = p.1;
              version = version_at body (field body (at + 0xc));
              entry_type = 2;
              file_size = field body (at + 8);
              data_hash = [];
            })
            r.0,
        r.1,
      ))
      (read_strings body (field body at) (field body (at + 0x24)) (field body (at + 0x28)) sbuf)

module _ (sha : List ℕ → List ℕ) (read : Files) (copy_to_folder : Bool) where
  pub check_found : Option Item → Totals → Option Totals
  check_found none t = some t
  check_found (some i) t = check_item sha read copy_to_folder i t

  -- `verifyManifestItems` for a reader of items of `size` bytes, from the item at `at` on.
  pub verify_items :
      (ℕ → List ℕ → Option (Option Item × List ℕ)) → ℕ → ℕ → ℕ → List ℕ → Totals → Option Totals
  verify_items reader size zero at sbuf t = some t
  verify_items reader size (suc left) at sbuf t = elim (reader at sbuf) [
    | none ↦ none
    | some (item, sbuf') ↦ elim (check_found item t) [
      | none ↦ none
      | some t' ↦ verify_items reader size left (at + size) sbuf' t'
    ]
  ]

-- The choice of `parseManifest` by the schema. The buffer for strings starts out empty.
pub verify_body : (List ℕ → List ℕ) → Files → Bool → ℕ → Memory → Totals → Option Totals
verify_body sha read copy_to_folder schema body t =
    if schema == 1
    then verify_items sha read false (read_item_v1 body) 0x44 (field body 0x2c) 0x30 [] t
    else if schema == 3
    then verify_items sha read copy_to_folder (read_item body) 0x60 (field body 0x2c) 0x30 [] t
    else some t

-- `parseManifest`.
pub parse_manifest : (List ℕ → List ℕ) → Files → Bool → Memory → ℕ → Totals → Option Totals
parse_manifest sha read copy_to_folder bytes len t =
    if ltb 0x10000 len || ltb len 0x164
    then some t
    else if verify_manifest_header sha bytes
    then verify_body sha read copy_to_folder (schema_of bytes) (λ k. bytes (0x138 + k)) t
    else some t
