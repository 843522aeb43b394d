-- ===== src/Tests/Patches.antt =====
-- The theorem on dl_patches.c for a folder that has every file, of two bytes each.
use Prim.Native.String.{String}
use xe_build.Base.{ℕ, ◌≡◌, refl, true, Option, some, List, [], ◌∷◌, map, arith}
use xe_build.Xex.Inflate.{list_memory}
use xe_build.Xex.Info.{word_at}
use xe_build.DlPatches.{Loaded, file_list, get_item_data, get_items, contents, main}
use xe_build.DlPatches.Entries.{Describes, main-Describes}

abbrev folder : String → Option (List ℕ)
folder name = some (1 ∷ 2 ∷ [])

abbrev loaded : ℕ → Loaded
loaded kind = record { kind = kind; content = 1 ∷ 2 ∷ [] }

abbrev before : List Loaded
before = map loaded (0x80000000 ∷ 0x80000001 ∷ 0x80000002 ∷ 0x80000003 ∷ [])

abbrev behind : List Loaded
behind = map loaded (
    0x20000001 ∷ 0x20000002 ∷ 0x20000003 ∷ 0x60000004 ∷ 0x20000005 ∷ 0x20000006 ∷ 0x10000004
    ∷ 0x10000005 ∷ 0x40000000 ∷ [])

main-Describes_example :
    (out : List ℕ) × (main folder true (λ n. true) ≡ record { ret = 0; output = some out })
    × (word_at (list_memory out) 0 ≡ 0xf0)
    × (word_at (list_memory out) 4 ≡ 14)
    × Describes (list_memory out) 0x50 (word_at (list_memory out) 0) (loaded 0x20000000)
unfolding file_list get_items get_item_data contents
main-Describes_example =
    main-Describes folder (λ n. true) before (loaded 0x20000000) behind refl refl (omega arith)
