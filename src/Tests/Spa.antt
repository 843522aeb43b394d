-- ===== src/Tests/Spa.antt =====
-- Resources with an icon of three bytes and a document of one name, and the header.
use mathlib.Core.Option
use xe_build.Base.{
  ℕ, ◌+◌, ◌*◌, ◌≡◌, refl, ◌∙◌, Bool, true, Option, none, some, List, [], ◌∷◌, ◌++◌, length, arith,
}
use xe_build.Bytes.{byte_at, bytes16, bytes32, bytes64, get_be16, get_be32, get_be64}
use xe_build.Svod.Disc.{Memory, slice}
use xe_build.Svod.Scan.{same_text}
use xe_build.Svod.Writer.{Hash}
use xe_build.Stfs.{con_check_hashes, data_start, check_loop, first_state}
use xe_build.Xex.Info.{word_at, half_at}
use xe_build.Xex.Inflate.{Decoder}
use xe_build.Xex.Load.{get_xex_info_data}
use xe_build.Xex.Load.Kept.{get_xex_info_data-KeepsCounts}
use xe_build.Header.{
  header_size, size_of_headers, title_name_at, prepare_volume, prepare_header_file,
  finalize_header_file,
}
use xe_build.Header.Content.{KeepsCounts, finalize_header_file-con_check_hashes}
use xe_build.Spa.{endian_copy_wchar_buf}
use xe_build.Spa.Frame.{length-slice}
use xe_build.Spa.Chars.{text_char, endian_copy_wchar_buf_lem}
use xe_build.Spa.Strings.{
  Translation, Document, Parsed, Inflated, unpack_gzip_stream_data, description_id,
}
use xe_build.Spa.Strings.Status.{is_locale, locales_known, xrsc_status}
use xe_build.Spa.Entries.{get_entry_info, base_off, get_spa_info}
use xe_build.Spa.Entries.Status.{
  entries_from, all_of, any_of, accepted, succeeds-some, get_spa_info_lem,
}
use xe_build.Spa.Entries.Icon.{last_icon, ShowsLast, get_spa_info-ShowsLast}
use xe_build.Spa.Entries.Confined.{KeepsOther, get_spa_info-KeepsOther}

-- The header, the two entries, the icon and the string resource.
abbrev spa_bytes : List ℕ
spa_bytes =
    (bytes32 0x58444246 ++ bytes32 0x10000 ++ bytes32 2 ++ bytes32 2 ++ bytes32 0 ++ bytes32 0)
    ++ (bytes16 2 ++ bytes64 0x8000 ++ bytes32 0 ++ bytes32 3)
    ++ (bytes16 1 ++ bytes64 0x58535243 ++ bytes32 3 ++ bytes32 0x19)
    ++ (0x89 ∷ 0x50 ∷ 0x4e ∷ [])
    ++ (bytes32 0x58535243
        ++ bytes32 1
        ++ bytes32 0x19
        ++ bytes32 0
        ++ bytes32 0x40
        ++ bytes32 1
        ++ (0 ∷ []))

abbrev spa : Memory
spa k = byte_at spa_bytes k

abbrev header : Memory
header k = 0xee

-- `Hi`, and a document with it as the only name.
abbrev hi : Translation
hi = record { locale = 0x65 ∷ 0x6e ∷ 0x2d ∷ 0x75 ∷ 0x73 ∷ []; text = 0x48 ∷ 0x69 ∷ [] }

abbrev document : Document
document = record {
  namespace_ok = true;
  title_name = some (some (0x48 ∷ 0x69 ∷ []));
  product = none;
  translations = λ id. hi ∷ [];
}

abbrev to_wide : List ℕ → List ℕ
to_wide text = text ++ (0 ∷ [])

abbrev inflate : Memory → ℕ → ℕ → Inflated
inflate mem n m = record { status = 1; out = mem }

abbrev read_xml : Memory → ℕ → Option Document
read_xml mem n = some document

abbrev alloc : ℕ → Bool
alloc n = true

endian_copy_wchar_buf_lem_example :
    half_at
      (endian_copy_wchar_buf (0x48 ∷ 0x69 ∷ []) 2 title_name_at 0x40 header)
      (title_name_at + 1 * 2)
    ≡ text_char (0x48 ∷ 0x69 ∷ []) 0x40 1
endian_copy_wchar_buf_lem_example =
    endian_copy_wchar_buf_lem (0x48 ∷ 0x69 ∷ []) title_name_at 0x40 1 header (omega arith)
      (omega arith)

spa-accepted : accepted to_wide inflate read_xml alloc spa 0x58 ≡ true
unfolding description_id slice get_be16 get_be32 get_be64 get_entry_info entries_from all_of any_of
    xrsc_status unpack_gzip_stream_data is_locale locales_known same_text
spa-accepted = refl

spa-answer :
    (r : Parsed) × (get_spa_info to_wide inflate read_xml alloc spa 0x58 header ≡ some r)
    × (r.ret ≡ true)
spa-answer =
    succeeds-some (get_spa_info to_wide inflate read_xml alloc spa 0x58 header)
      (get_spa_info_lem to_wide inflate read_xml alloc spa 0x58 header ∙ spa-accepted)

get_spa_info-ShowsLast_example :
    ShowsLast spa
      (base_off spa)
      (last_icon (entries_from (word_at spa 0xc) spa 0x18) none)
      (spa-answer.0).header
get_spa_info-ShowsLast_example =
    get_spa_info-ShowsLast to_wide inflate read_xml alloc spa 0x58 header spa-answer.0 spa-answer.1
      spa-answer.2

get_spa_info-KeepsOther_example : KeepsOther header (spa-answer.0).header
get_spa_info-KeepsOther_example =
    get_spa_info-KeepsOther to_wide inflate read_xml alloc spa 0x58 header spa-answer.0 spa-answer.1

abbrev cbc : List ℕ → List ℕ → List ℕ → List ℕ
cbc key feed input = input

abbrev lzxd : ℕ → ℕ → ℕ → Option Decoder
lzxd bits reset size = none

get_xex_info_data-KeepsCounts_example :
    KeepsCounts
      (get_xex_info_data cbc [] [] alloc lzxd (get_spa_info to_wide inflate read_xml alloc) 5)
get_xex_info_data-KeepsCounts_example =
    get_xex_info_data-KeepsCounts cbc [] [] alloc lzxd to_wide inflate read_xml 5

abbrev digest20 : List ℕ → Hash
digest20 bytes = slice (λ k. byte_at bytes k) 0 20

length-digest20 : (bytes : List ℕ) → length (digest20 bytes) ≡ 20
length-digest20 bytes = length-slice (λ k. byte_at bytes k) 0 20

prepared_size : slice prepare_header_file size_of_headers 4 ≡ bytes32 0xad0e
unfolding prepare_header_file prepare_volume slice
prepared_size = refl

finalize_header_file-con_check_hashes_example :
    let con = finalize_header_file digest20 prepare_header_file in
    con_check_hashes digest20 con 3 (data_start digest20 con) 0x10000
    ≡ check_loop digest20 con header_size 0x10000 3 (first_state digest20 con header_size)
finalize_header_file-con_check_hashes_example =
    finalize_header_file-con_check_hashes digest20 length-digest20 prepare_header_file 3 0x10000
      prepared_size
