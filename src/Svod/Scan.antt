-- ===== src/Svod/Scan.antt =====
-- `getMaxDirectory` and `getDiskEnd` of tools/iso2svod/source/isoio.c: the directories of the disc
-- are read to find the first and the last sector in use, and the executable. A call of
-- `getMaxDirectory` for each subdirectory and each round of its loop take one unit of fuel; `none`
-- means that it ran out, or that a name of more than 128 bytes is copied over the end of
-- `temOutName`. Allocation is a parameter, on the size. Bytes behind the end of a
-- directory's buffer, where the code may read the last entry, are 0.
pub mod Tree
pub mod Hang
pub mod Bounds
use xe_build.Base.{
  ℕ, zero, suc, ◌+◌, ◌-◌, ◌*◌, Bool, true, false, ◌&&◌, ◌||◌, Option, none, some, List, [], ◌∷◌,
  ltb, leb, ◌==◌, ◌!=◌, if◌then◌else◌, u32, low_bits, clear_bits, ◌>>>◌, bit_and,
}
use xe_build.Bytes.{byte_at, get_le16, get_le32}
use xe_build.Svod.Disc.{Memory, Disc, set_iso_sector, read_iso_data, slice}

-- `maxSector`, `minSector`, `defaultXexSector` and `defaultXexSize`.
pub record State : Type 0 where
  pub max_sector : ℕ
  pub min_sector : ℕ
  pub xex_sector : ℕ
  pub xex_size : ℕ

-- `XISO_ENTRYVAL`.
pub record Entry : Type 0 where
  pub unk1 : ℕ
  pub unk2 : ℕ
  pub sector : ℕ
  pub size : ℕ
  pub ent_type : ℕ
  pub name_sz : ℕ
  pub name : List ℕ

unfoldable pub entry_at : Memory → ℕ → Entry
entry_at buf off = record {
  unk1 = get_le16 (slice buf off 2) 0;
  unk2 = get_le16 (slice buf (off + 2) 2) 0;
  sector = get_le32 (slice buf (off + 4) 4) 0;
  size = get_le32 (slice buf (off + 8) 4) 0;
  ent_type = low_bits (buf (off + 0xc)) 8;
  name_sz = low_bits (buf (off + 0xd)) 8;
  name = slice buf (off + 0xe) 11;
}

-- `(x + 0x7FF) & ~0x7FF` and `(pent->nameSz + 0x11) & ~3`.
abbrev pub round_sector : ℕ → ℕ
round_sector x = clear_bits (u32 (x + 0x7ff)) 11

abbrev pub entry_step : Entry → ℕ
entry_step e = clear_bits (e.name_sz + 0x11) 2

-- The size in sectors, and the tests of the loop on an entry.
abbrev pub sector_count : Entry → ℕ
sector_count e = low_bits (round_sector e.size >>> 11) 21

abbrev pub is_marker : Entry → Bool
is_marker e = e.unk1 == 0xffff || e.unk2 == 0xffff

abbrev pub is_directory : Entry → Bool
is_directory e = bit_and e.ent_type 0x10 == 0x10

-- `strnicmp(pent->name, "default.xex", 11) == 0`.
abbrev pub lower : ℕ → ℕ
lower c = if ltb 0x40 c && ltb c 0x5b then c + 0x20 else c

unfoldable pub same_text : List ℕ → List ℕ → Bool
same_text [] [] = true
same_text [] (b ∷ bs) = false
same_text (a ∷ rest) [] = false
same_text (a ∷ rest) (b ∷ bs) = if lower a == lower b then same_text rest bs else false

abbrev pub xex_file_name : List ℕ
xex_file_name = 0x64 ∷ 0x65 ∷ 0x66 ∷ 0x61 ∷ 0x75 ∷ 0x6c ∷ 0x74 ∷ 0x2e ∷ 0x78 ∷ 0x65 ∷ 0x78 ∷ []

-- The two updates that every entry takes, and the one for the executable.
unfoldable pub note_extent : Entry → State → State
note_extent e s =
    let end = u32 (sector_count e + e.sector) in
    record s {
      max_sector = if ltb s.max_sector end then end else s.max_sector;
      min_sector = if ltb e.sector s.min_sector then e.sector else s.min_sector;
    }

unfoldable pub note_file : Entry → State → State
note_file e s =
    if e.name_sz == 11 && same_text e.name xex_file_name
    then record s { xex_sector = e.sector; xex_size = e.size }
    else s

-- What a call of `getMaxDirectory` leaves: its result and the state.
pub record Scanned : Type 0 where
  pub ok : Bool
  pub state : State

abbrev pub blank : Memory
blank = λ k. 0

module _ (alloc : ℕ → Bool) (d : Disc) where
  -- `getMaxDirectory` for the loop that it is given.
  pub read_directory : (ℕ → Memory → ℕ → State → Option State) → ℕ → ℕ → State → Option Scanned
  read_directory loop sector ent_size s =
      let size = round_sector ent_size in
      let r = read_iso_data d (set_iso_sector d sector) blank 0 size in
      if size == 0
      then some (record { ok = true; state = s })
      else if alloc size && r.success
      then elim (loop size r.mem 0 s) [
        | none ↦ none
        | some s' ↦ some (record { ok = true; state = s' })
      ]
      else some (record { ok = false; state = s })

  -- The loop of `getMaxDirectory` over the entries from `off` on.
  pub scan_entries : ℕ → ℕ → Memory → ℕ → State → Option State
  scan_entries zero size buf off s = none
  scan_entries (suc fuel) size buf off s =
      let e = entry_at buf off in
      elim (ltb off size) [
        | false ↦ some s
        | true ↦ elim (is_marker e) [
          | true ↦ scan_entries fuel size buf (round_sector off) s
          | false ↦ elim (leb e.name_sz 128) [
            | false ↦ none
            | true ↦ elim (is_directory e) [
              | false ↦
                  scan_entries fuel size buf (u32 (off + entry_step e))
                    (note_file e (note_extent e s))
              | true ↦ elim (e.size != 0) [
                | false ↦ scan_entries fuel size buf (u32 (off + entry_step e)) (note_extent e s)
                | true ↦
                    elim (read_directory (scan_entries fuel) e.sector e.size (note_extent e s)) [
                      | none ↦ none
                      | some r ↦ scan_entries fuel size buf (u32 (off + entry_step e)) r.state
                    ]
              ]
            ]
          ]
        ]
      ]

  pub get_max_directory : ℕ → ℕ → ℕ → State → Option Scanned
  get_max_directory fuel sector ent_size s = read_directory (scan_entries fuel) sector ent_size s

  -- `getDiskEnd`, for the root directory's sector and size.
  abbrev pub first_state : ℕ → ℕ → State
  first_state root_sector root_size =
      let end = u32 (root_sector + round_sector root_size) in
      record {
        max_sector = if ltb end 0x108 then 0x108 else end;
        min_sector = root_sector;
        xex_sector = 0;
        xex_size = 0;
      }

  pub get_disk_end : ℕ → ℕ → ℕ → Option Scanned
  get_disk_end fuel root_sector root_size =
      elim (get_max_directory fuel root_sector root_size (first_state root_sector root_size)) [
        | none ↦ none
        | some r ↦ some (
            if r.ok
            then record {
              ok = true;
              state = record (r.state) {
                min_sector = clear_bits r.state.min_sector 1;
                max_sector = clear_bits (u32 (r.state.max_sector + 1)) 1;
              };
            }
            else r)
      ]
