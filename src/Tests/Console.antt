-- ===== src/Tests/Console.antt =====
-- The theorems on reboot_core/main.c and flash_config.c at concrete inputs.
use xe_build.Base.{
  All, ℕ, ◌+◌, ◌*◌, ◌^◌, ◌≡◌, ◌≢◌, ◌↔◌, ◌⊎◌, refl, true, false, none, some, List, [], ◌∷◌, ◌++◌,
  arith, low_bits, get_or,
}
use xe_build.Sfc.{Sfc, sfc_init, controller, layout}
use xe_build.Sfc.Geometry.{IsGeometry, sfc_init-IsGeometry}
use xe_build.Boot.{Words}
use xe_build.Boot.Patch.{
  Patch, encode, end_mark, patch_engine, write_list, apply_all, section_words, patch_engine-encode,
}
use xe_build.Boot.Smc.{Poll, idle, reply, get_smc, smc_receive, wait_reply, get_smc_lem}
use xe_build.Boot.Start.{
  Options, Boot, start, BootsXell, copies_xell, patches, command_of, start_lem,
}
use xe_build.Boot.Vectors.{
  IsInstalled, place_jumps, exc, load_high, load_mid, load_low, vectors-IsInstalled,
}

abbrev blank_memory : Words
blank_memory = λ a. 0

abbrev two_patches : List Patch
two_patches =
    record { addr = 0x100; words = 0x60000000 ∷ 0x4e800020 ∷ [] }
    ∷ record { addr = 0x2000; words = 0x38600001 ∷ [] }
    ∷ []

patch_engine-encode_example :
    patch_engine 3 0x8000 0x10000 blank_memory (
      encode two_patches
        ((1 ∷ 2 ∷ []) ++ end_mark ∷ ([] ++ end_mark ∷ ((3 ∷ []) ++ end_mark ∷ (9 ∷ [])))))
    ≡ some (
        write_list
          (write_list
            (write_list
              (apply_all 0x8000 blank_memory two_patches)
              0x10000
              (section_words (1 ∷ 2 ∷ [])))
            (0x10000 + 0x1000)
            (section_words []))
          (0x10000 + 0x2000)
          (section_words (3 ∷ [])))
patch_engine-encode_example =
    patch_engine-encode 3 0x8000 0x10000 blank_memory two_patches (1 ∷ 2 ∷ []) [] (3 ∷ []) (9 ∷ [])
      (omega arith) (omega arith) (omega arith) (omega arith) (omega arith)

abbrev answers : List Poll
answers = idle ∷ reply (3 ∷ 7 ∷ []) ∷ reply (0xa ∷ 0x62 ∷ []) ∷ []

get_smc_lem_example :
    (get_smc 0xa ((idle ∷ reply (3 ∷ 7 ∷ []) ∷ []) ++ reply (0xa ∷ 0x62 ∷ []) ∷ [])
      ≡ some (low_bits (get_or (0xa ∷ 0x62 ∷ []) 1 0) 8))
    × (get_smc 0xa (idle ∷ reply (3 ∷ 7 ∷ []) ∷ []) ≡ none)
get_smc_lem_example =
    get_smc_lem 0xa (idle ∷ reply (3 ∷ 7 ∷ []) ∷ []) [] (0xa ∷ 0x62 ∷ []) (omega arith)
      (omega arith) refl

abbrev no_options : Options
no_options = record { dual = 0; flags = 0; reason2 = 0; reason1 = 0 }

tray_answer : get_smc (command_of no_options) answers ≡ some 0x62
unfolding get_smc wait_reply smc_receive
tray_answer = refl

start_lem_example :
    (b : Boot) × (start no_options answers ≡ some b)
    × ((BootsXell no_options 0x62
          × (b.ret ≡ 1)
          × (copies_xell b.actions ≡ true)
          × (patches b.actions ≡ false))
        ⊎ (¬ BootsXell no_options 0x62
            × (b.ret ≡ 0)
            × (copies_xell b.actions ≡ false)
            × (patches b.actions ≡ true)))
start_lem_example = start_lem no_options answers 0x62 tray_answer

vectors-IsInstalled_example :
    All (IsInstalled (place_jumps exc 0x8000000001003078 blank_memory) 0x8000000001003078) exc
    × (low_bits (load_high 0x8000000001003078) 16 * 2 ^ 48
          + low_bits (load_mid 0x8000000001003078) 16 * 2 ^ 16
          + low_bits (load_low 0x8000000001003078) 16
        ≡ 0x8000000001003078)
vectors-IsInstalled_example = vectors-IsInstalled 0x8000000001003078 blank_memory (omega arith) refl

abbrev done : ℕ
done = 1

abbrev none_yet : ℕ
none_yet = 0

abbrev no_sfc : Sfc
no_sfc = record {
  initialized = 0;
  meta_type = 0;
  page_sz = 0;
  meta_sz = 0;
  page_sz_phys = 0;
  blocks_per_lg_block = 0;
  block_sz = 0;
  size_blocks = 0;
  size_bytes = 0;
  size_usable_fs = 0;
  addr_config = 0;
  len_config = 0;
  pages_in_block = 0;
  block_sz_phys = 0;
  size_pages = 0;
  size_bytes_phys = 0;
  size_mb = 0;
}

-- The register of a Jasper with large blocks.
abbrev register : ℕ
register = 0x00aa3020

sfc_init-IsGeometry_example :
    ((sfc_init register no_sfc).ret ≡ 0 → IsGeometry (sfc_init register no_sfc).sfc)
    × ((sfc_init register no_sfc).ret ≢ 0 → (sfc_init register no_sfc).sfc.initialized ≡ 0)
    × (((sfc_init register no_sfc).ret ≡ 0)
        ↔ ((controller register ≢ 3) × ((layout register ≢ 0) ⊎ (controller register ≡ 2))))
sfc_init-IsGeometry_example = sfc_init-IsGeometry register no_sfc (λ ne more. omega arith)
