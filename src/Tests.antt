-- ===== src/Tests.antt =====
-- Runs of the theorems at concrete inputs.
mod Package
mod Console
mod Util
mod Listing
mod Update
mod Scan
mod Spa
mod Paths
mod Inflate
mod Hex
mod Info
mod Patches
