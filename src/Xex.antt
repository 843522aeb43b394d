-- ===== src/Xex.antt =====
-- The executable of a disc: tools/iso2svod/source/xexInflate.c and xexinfo.c.
pub mod Inflate
pub mod Info
pub mod Load
