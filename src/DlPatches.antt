-- ===== src/DlPatches.antt =====
-- tools/dl_patches/dl_patches/dl_patches.c: the patch files that are found are joined to one file
-- behind a header that lists them. The host's folder is a parameter, from names to bytes; a file is
-- read as a whole, and only the allocation of the header can fail.
pub mod Entries
use Prim.Native.String.{String}
use xe_build.Base.{
  ℕ, zero, suc, ◌+◌, ◌-◌, ◌*◌, ◌/◌, ◌%◌, ◌^◌, Bool, true, false, Option, none, some, List, [], ◌∷◌,
  ◌++◌, length, replicate, if◌then◌else◌, u32, sub32, low_bits,
}

-- `PATCHES_LIST`, before and after its file is read.
pub record Item : Type 0 where
  pub filename : String
  pub altname : Option String
  pub item_type : ℕ

pub record Loaded : Type 0 where
  pub kind : ℕ
  pub content : List ℕ

unfoldable pub file_list : List Item
file_list =
    (record { filename = "patches_xenon.bin"; altname = none; item_type = 0x80000000 })
    ∷ (record { filename = "patches_zephyr.bin"; altname = none; item_type = 0x80000001 })
    ∷ (record { filename = "patches_falcon.bin"; altname = none; item_type = 0x80000002 })
    ∷ (record { filename = "patches_jasper.bin"; altname = none; item_type = 0x80000003 })
    ∷ (record { filename = "patches_g2xenon_dl.bin"; altname = none; item_type = 0x20000000 })
    ∷ (record { filename = "patches_g2zephyr_dl.bin"; altname = none; item_type = 0x20000001 })
    ∷ (record { filename = "patches_g2falcon_dl.bin"; altname = none; item_type = 0x20000002 })
    ∷ (record { filename = "patches_g2jasper_dl.bin"; altname = none; item_type = 0x20000003 })
    ∷ (record {
      filename = "patches_g2trinity_dl.bin";
      altname = some "patches_trinity_dl.bin";
      item_type = 0x60000004;
    })
    ∷ (record { filename = "patches_g2corona_dl.bin"; altname = none; item_type = 0x20000005 })
    ∷ (record { filename = "patches_g2winchester_dl.bin"; altname = none; item_type = 0x20000006 })
    ∷ (record { filename = "patches_g2mtrinity_dl.bin"; altname = none; item_type = 0x10000004 })
    ∷ (record { filename = "patches_g2mcorona_dl.bin"; altname = none; item_type = 0x10000005 })
    ∷ (record { filename = "patches_fat_dl.bin"; altname = none; item_type = 0x40000000 })
    ∷ []

-- `u32Rev`, and a DWORD as the machine stores it.
pub u32_rev : ℕ → ℕ
u32_rev x = u32 (
    low_bits x 8 * 2 ^ 24
    + low_bits (x / 2 ^ 8) 8 * 2 ^ 16
    + low_bits (x / 2 ^ 16) 8 * 2 ^ 8
    + low_bits (x / 2 ^ 24) 8)

abbrev pub store32 : ℕ → List ℕ
store32 x = x % 256 ∷ x / 2 ^ 8 % 256 ∷ x / 2 ^ 16 % 256 ∷ x / 2 ^ 24 % 256 ∷ []

-- The size of the header, in which one entry is counted by its structure.
pub head_size : ℕ → ℕ
head_size cnt = u32 (0x20 + u32 (0x10 * sub32 cnt 1))

-- An entry of the header; `memset` leaves the field that is not set.
pub entry_bytes : Loaded → ℕ → List ℕ
entry_bytes f curr_off =
    store32 (u32_rev f.kind)
    ++ (store32 (u32_rev (length f.content)) ++ (store32 (u32_rev curr_off) ++ replicate 4 0xff))

pub fill_entries : List Loaded → ℕ → List ℕ
fill_entries [] curr_off = []
fill_entries (f ∷ fs) curr_off =
    entry_bytes f curr_off ++ fill_entries fs (u32 (curr_off + length f.content))

pub header_bytes : List Loaded → List ℕ
header_bytes fs =
    store32 (u32_rev (head_size (length fs)))
    ++ (store32 (u32_rev (length fs)) ++ (replicate 8 0xff ++ fill_entries fs 0))

unfoldable pub contents : List Loaded → List ℕ
contents [] = []
contents (f ∷ fs) = f.content ++ contents fs

-- How `main` ends: its result and the file that it leaves.
pub record Ended : Type 0 where
  pub ret : ℕ
  pub output : Option (List ℕ)

module _ (read_file : String → Option (List ℕ)) where
  unfoldable pub get_item_data : Item → Option (List ℕ)
  get_item_data item = elim (read_file item.filename) [
    | some d ↦ some d
    | none ↦ elim item.altname [ none ↦ none | some name ↦ read_file name ]
  ]

  unfoldable pub get_items : List Item → List Loaded
  get_items [] = []
  get_items (item ∷ items) =
      let rest = get_items items in
      elim (get_item_data item) [
        | none ↦ rest
        | some d ↦ record { kind = item.item_type; content = d } ∷ rest
      ]

  pub main : Bool → (ℕ → Bool) → Ended
  main creates alloc =
      let fs = get_items file_list in
      if creates
      then if alloc (head_size (length fs))
        then record { ret = 0; output = some (header_bytes fs ++ contents fs) }
        else record { ret = 1; output = some [] }
      else record { ret = 2; output = none }
