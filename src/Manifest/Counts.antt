-- ===== src/Manifest/Counts.antt =====
-- What the counters of tools/su_check/su_check/main.c say behind `parseManifest`.
use mathlib.Core.Option
use xe_build.Base.{ℕ, ◌+◌, ◌^◌, ◌≤◌, ◌<◌, ◌≡◌, true, Option, some, List, [], length, is_some, ◌*◌}
use xe_build.Svod.Disc.{Memory}
use xe_build.Stfs.{data_start}
use xe_build.Manifest.{Totals, Files, Item, read_item, read_item_v1, field}

-- What a reader of items of `size` bytes makes of any of them: its strings fit.
abbrev pub Fit : (ℕ → List ℕ → Option (Option Item × List ℕ)) → ℕ → ℕ → ℕ → Type 0
Fit reader size left at =
    (k : ℕ) (sbuf : List ℕ) → k < left → is_some (reader (at + k * size) sbuf) ≡ true

-- No string of an item of the manifest whose body this is has more than 511 bytes, and no source
-- name more than 245: every item can be read.
pub record StringsFit (schema : ℕ) (body : Memory) : Type 0 where
  pub old_items : schema ≡ 1 → Fit (read_item_v1 body) 0x44 (field body 0x2c) 0x30
  pub items : schema ≡ 3 → Fit (read_item body) 0x60 (field body 0x2c) 0x30

-- No more files are good than were checked, and none was copied that is not good.
pub record IsConsistent (t : Totals) : Type 0 where
  pub files : t.files_ok ≤ t.files_checked
  pub containers : t.con_ok ≤ t.con_checked
  pub copies : length t.copied ≤ t.files_ok + t.con_ok

module _ (sha : List ℕ → List ℕ) (read : Files)
    (small : (name : List ℕ) (con : Memory) (len : ℕ)
      → read name ≡ some (con, len)
      → (len < 2 ^ 31) × (data_start sha con < 2 ^ 31)) where
  -- One item: consistent as before, and at most one more of each kind.
  abbrev Counted : Totals → Totals → Type 0
  Counted t t' =
      IsConsistent t'
      × (t'.files_checked ≤ t.files_checked + 1)
      × (t'.con_checked ≤ t.con_checked + 1)

  abbrev Room : ℕ → Totals → Type 0
  Room left t = (t.files_checked + left < 2 ^ 32) × (t.con_checked + left < 2 ^ 32)

  -- The counters behind a check that may run out of fuel, which it does not.
  abbrev Checked : Totals → Option Totals → Type 0
  Checked t run = (t' : Totals) × (run ≡ some t') × Counted t t'

  -- A run over a whole list of items.
  abbrev Ends : Option Totals → Type 0
  Ends run = (t : Totals) × (run ≡ some t) × IsConsistent t

abbrev pub no_totals : Totals
no_totals = record { files_checked = 0; files_ok = 0; con_checked = 0; con_ok = 0; copied = [] }
