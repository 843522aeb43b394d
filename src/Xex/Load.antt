-- ===== src/Xex/Load.antt =====
-- `xexDoDecrypt`, `xexGetSpaInfo` and `getXexInfo` of tools/iso2svod/source/xexinfo.c: the image of
-- an executable is decrypted, unpacked, and searched for the title's resources.
pub mod Raw
pub mod Kept
use mathlib.Core.Option
use xe_build.Base.{
  ℕ, zero, suc, ◌+◌, ◌-◌, ◌*◌, ◌/◌, Bool, true, false, ◌&&◌, Option, none, some, List, [], length,
  ltb, leb, ◌==◌, ◌!=◌, if◌then◌else◌, u32, sub32, bit_and, replicate,
}
use xe_build.Bytes.{byte_at, get_be32}
use xe_build.Svod.Disc.{Memory, slice, store}
use xe_build.Svod.Scan.{blank}
use xe_build.Header.{execution_id_at}
use xe_build.Spa.Strings.{Parsed}
use xe_build.Xex.Inflate.{Decoder, list_memory, unpack_xex_data}
use xe_build.Xex.Info.{
  word_at, half_at, raw_word_at, file_data_descriptor, get_xex_header_field, get_xex_exec_info,
  expand_raw, upper_hex, Section, xex_get_spa_offset,
}

-- The file behind the decryption, and the image (`outbuf`).
pub record Image : Type 0 where
  pub good : Bool
  pub file : Memory
  pub out : Memory

-- What `getXexInfo` leaves: its result, `xexMediaId`, the execution ID, what `getSpaInfo` said, and
-- the package header.
pub record Info : Type 0 where
  pub ret : Bool
  pub media : List ℕ
  pub execution : Option (List ℕ)
  pub spa : Bool
  pub header : Memory

abbrev zeros : List ℕ
zeros = replicate 16 0

-- `XeCryptAesCbc` for decryption, on a key, the feed and the data.
module _ (cbc : List ℕ → List ℕ → List ℕ → List ℕ) (xex1_key xex2_key : List ℕ) where
  pub xex_do_decrypt : List ℕ → List ℕ → List ℕ → List ℕ
  xex_do_decrypt xex_key image_key input = cbc (cbc xex_key zeros image_key) zeros input

  -- `sec` is the place of the security information, and `desc` that of the data descriptor.
  unfoldable pub decrypt_file : Memory → ℕ → ℕ → ℕ → Memory
  decrypt_file mem sec desc len =
      let headers = word_at mem 8 in
      let key = if bit_and (word_at mem (sec + 0x10c)) 4 != 0 then xex1_key else xex2_key in
      if bit_and (half_at mem (desc + 4)) 1 != 0
      then store mem headers (
          xex_do_decrypt key (slice mem (sec + 0x150) 0x10) (slice mem headers (sub32 len headers)))
      else mem

  module _ (alloc : ℕ → Bool) (lzxd : ℕ → ℕ → ℕ → Option Decoder) where
    -- `none` is a write behind a buffer, or the end of the fuel. The length that is decrypted is a
    -- difference of words.
    pub load_image : ℕ → Memory → ℕ → ℕ → ℕ → Option Image
    load_image fuel mem sec desc len =
        let file = decrypt_file mem sec desc len in
        let headers = word_at file 8 in
        let format = half_at file (desc + 6) in
        if bit_and (half_at mem (desc + 4)) 1 != 0 && ltb len (word_at mem 8)
        then none
        else if format == 1
        then elim (expand_raw (word_at file (sec + 4)) (sub32 (word_at file desc) 8 / 8) file
            (desc + 8) headers blank 0) [
              | none ↦ none
              | some out ↦ some (record { good = true; file = file; out = out })
            ]
        else if format == 2
        then elim (unpack_xex_data alloc lzxd fuel (λ k. file (headers + k)) (sub32 len headers)
            blank (word_at file (sec + 4)) (word_at file (desc + 8)) (word_at file (desc + 0xc))) [
              | none ↦ none
              | some u ↦ some (record { good = u.ret; file = file; out = u.out })
            ]
        else some (record { good = false; file = file; out = blank })

    module _ (get_spa_info : Memory → ℕ → Memory → Option Parsed) where
      -- The last part of `xexGetSpaInfo`, for the title ID.
      pub image_spa : Image → ℕ → ℕ → Memory → Option Parsed
      image_spa im sec title h =
          let s = xex_get_spa_offset im.file (list_memory (upper_hex 8 title [])) in
          let off = sub32 s.address (word_at im.file (sec + 0x110)) in
          let failed : Parsed = record { ret = false; header = h } in
          if im.good && s.address != 0
          then if leb (u32 (off + s.size)) (word_at im.file (sec + 4))
            then get_spa_info (λ k. im.out (off + k)) s.size h
            else some failed
          else some failed

      pub xex_get_spa_info : ℕ → Memory → ℕ → ℕ → ℕ → Memory → Option Parsed
      xex_get_spa_info fuel mem sec len title h =
          elim (get_xex_header_field mem file_data_descriptor (raw_word_at mem 0x14)) [
            | none ↦ some (record { ret = false; header = h })
            | some p ↦ elim (alloc (word_at mem (sec + 4))) [
              | false ↦ some (record { ret = false; header = h })
              | true ↦ elim (load_image fuel mem sec (word_at mem (p + 4)) len) [
                | none ↦ none
                | some im ↦ image_spa im sec title h
              ]
            ]
          ]

      -- The execution ID is stored in the header before the resources are looked for.
      pub get_xex_info : ℕ → Memory → ℕ → Memory → Option Info
      get_xex_info fuel mem len h =
          let sec = word_at mem 0x10 in
          let media = slice mem (sec + 0x140) 0x10 in
          let rejected : Info = record {
            ret = false;
            media = [];
            execution = none;
            spa = false;
            header = h;
          } in
          if word_at mem 0 != 0x58455832
          then some rejected
          else if ltb (sub32 len 0x184) sec
          then some rejected
          else elim (get_xex_exec_info mem len) [
            | none ↦
                some
                  (record { ret = true; media = media; execution = none; spa = false; header = h })
            | some id ↦
                elim (xex_get_spa_info fuel mem sec len (get_be32 id 0xc)
                  (store h execution_id_at id)) [
                    | none ↦ none
                    | some r ↦ some (record {
                      ret = true;
                      media = media;
                      execution = some id;
                      spa = r.ret;
                      header = r.header;
                    })
                  ]
          ]

      -- `getXexInfoData`, as a caller sees it.
      pub get_xex_info_data : ℕ → Memory → ℕ → Memory → Option Parsed
      get_xex_info_data fuel mem len h =
          Option.map (λ i. record { ret = i.ret; header = i.header }) (get_xex_info fuel mem len h)
