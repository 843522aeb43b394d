-- ===== src/Lib.antt =====
-- xeBuild's C tools and its reboot core.
--
-- The repository holds several programs that share helpers but no state. Each has a module here.
--   * Bytes: tools/iso2svod/source/util.c (the copies in su_check and ini_creator have the same
--     functions): `getBe32` is `get_be32`, and so on. A pointer is a buffer, a list of bytes, with an
--     offset. Bytes/Search has `findInst`, Bytes/Hex the hexadecimal digits, and Bytes/Smc the
--     checksum of the SMC configuration.
--   * Svod: tools/iso2svod/source/isoio.c. Svod/Disc is the image with its base offset, Svod/Layout
--     `calcDataFileSizes` and `calcDataBlocks`, Svod/Writer `writeIsoBody` with its helpers, and
--     Svod/Package `fixIsoHeaders` and `isoToSvod`. The globals `lv1hash` and `datablock` and the
--     locals of the loop are the record `State`; one turn of the `while` loop is `turn`. The files on
--     the host are lists of blocks with their header. Writer/Blocks says what a package of a payload
--     is, Writer/Round keeps the loop's invariant, Writer/Body has the run as a
--     whole, and Writer/Ends the runs that stop at an error too. Svod/Scan is the scan of the
--     directories, `getMaxDirectory` and `getDiskEnd`, and Svod/Open finds the image's base offset
--     and runs the tool from the opened image to the package (`main` of
--     tools/iso2svod/source/main.c). Scan/Tree describes a disc whose directories form a tree,
--     Open/Run joins the scan, the sizes and the writer, and Open/Written is about the header.
--   * Header: the package header, `headerBuffer` with `xHeader` and `xMeta`: the places of its fields
--     (tools/iso2svod/source/xcontent.h), `prepareHeaderFile` and `finalizeHeaderFile` of main.c and
--     the stores of isoio.c. Header/Stores has the laws of stores and reads, and Header/Content what
--     a finished header holds.
--   * Spa: tools/iso2svod/source/spa.c: the texts and the icon of the title go from the resources of
--     the executable into the header. Spa/Strings is `parseStringsXrXml` and `parseStringsXrsc`,
--     Spa/Entries `getSpaInfo`. The Status modules say what the parsers answer, from the document
--     and the entries alone; Spa/Frame, Strings/Frame and Entries/Confined where they write,
--     Spa/Chars what characters are there, and Entries/Icon which icon. A run into undefined
--     behaviour is `none`.
--   * Xex: the executable of the disc. Xex/Inflate is tools/iso2svod/source/xexInflate.c: the memory
--     files, the chain of blocks (`rebufInData`) and `unpackXexData`. Xex/Info and Xex/Load are
--     tools/iso2svod/source/xexinfo.c: the fields of the header, the image and `getXexInfo`, which
--     Load/Kept joins with Spa.
--     Inflate/Chain writes such a chain and Info/Raw such records; Inflate/Stream
--     is what becomes of the chain, and Inflate/Confined what any decoder can do through the files.
--   * Paths: the output folder, `createDirRecursive` of tools/iso2svod/source/util.c and
--     `prepareOutputPath` of main.c; `main` in Svod/Open takes its result as a flag.
--     Paths/Names is about paths, and Paths/Walk the loop that makes the folders.
--   * Crc: tools/ini_creator/ini_creator/crc32.c, and Crc/Reference the division bit by bit.
--   * Ini: tools/ini_creator/ini_creator/main.c. It reads words with Bytes and hashes with Crc.
--   * Sfc: tools/scriptsetc/flash_config.c. `SFC_init` is `sfc_init`, a function of the register.
--   * Boot: reboot_core/main.c. Boot/Vectors writes the interrupt vectors, Boot/Smc asks the system
--     controller, Boot/Patch is the patch engine, and Boot/Start is `start`, whose effects are a list
--     of actions in their order.
--   * Stfs: tools/su_check/su_check/main.c, `conCheckHashes` and `conCheckHeader`, and Manifest the
--     rest of that file: the manifest, its items and the counters. Manifest uses Stfs as the program
--     does. `copied` stands for the calls of `dump_buffer_hex`.
--   * DlPatches: tools/dl_patches/dl_patches/dl_patches.c, whose `fileList` is `file_list`.
--     DlPatches/Entries reads the joined file again.
-- Base holds what they share: lists over the native numbers, tests, words, and the laws of `|` and
-- `^`. Tests runs the theorems at concrete inputs.
--
-- Parameters: `XeCryptSha` (any function on lists of bytes), whether the host can create or open a
-- file, its `stat` and `mkdir`, the content of files, the bytes of the image, memory, and the replies of the controller.
-- What a read behind the end of a buffer gives is undefined in C; here it is 0, or the value of
-- the function that stands for the memory. A write behind the end of a buffer that the code does
-- not test for is no result, `none`. The LZX decoder of mspack is a parameter too: a program
-- that asks for bytes and hands bytes over (`Decoder`). So are `XeCryptAesCbc`, the keys, `malloc`,
-- zlib's `inflate`, `MultiByteToWideChar`, and libxml: a document is what the queries on it answer,
-- and each translation in it has a locale. Svod/Open takes `getXexInfoData` as a parameter, and
-- Xex/Load takes `getSpaInfo`; Load/Kept shows for those of this development what Open/Written asks.
--
-- Fuel: `write_loop` takes one unit for each turn, and as many as there are sectors, with two more,
-- are enough; `check_loop` takes one for each 0xAB000 bytes of the container; `apply_patches` takes
-- one for each patch; `scan_entries` takes one for each entry and each stretch of padding on a way
-- from the root, and `weight` of the tree's shape is enough; `copy_blocks` takes
-- one for each block and each part of one, as `fuel_of` counts. The other loops recurse on a counter
-- or a list.
--
-- Not modelled: the other input and output, and printing; `parseXstrSpa` of spa.c, which only a comment
-- calls; the signature check of xexinfo.c, which only prints; the mspack and zlib libraries under
-- tools/iso2svod/source; tools/bin2c2 and tools/opt_idx; the PowerPC patches and the build data.
pub mod Base
pub mod Bytes
pub mod Svod
pub mod Header
pub mod Spa
pub mod Paths
pub mod Xex
pub mod Sfc
pub mod Boot
pub mod Crc
pub mod Ini
pub mod Stfs
pub mod DlPatches
pub mod Manifest
pub mod Tests
