-- ===== src/Svod.antt =====
-- tools/iso2svod/source/isoio.c: an XGD disc image is split into the data files of an SVOD package.
pub mod Disc
pub mod Layout
pub mod Writer
pub mod Package
pub mod Scan
pub mod Open
