-- ===== src/Svod/Writer/Blocks.antt =====
-- What it is for blocks and files to hold a given stretch of data with the right hashes.
use xe_build.Base.{
  ℕ, zero, suc, ◌+◌, ◌-◌, ◌*◌, ◌/◌, ◌≤◌, ◌<◌, min, ◌≡◌, refl, Bool, List, [], ◌∷◌, length, arith,
  ◌&&◌, leb, ltb, if◌then◌else◌,
}
use mathlib.Core.Path.{ap₂, subst₂}
use xe_build.Svod.Disc.{Memory, Disc, set_iso_sector, slice}
use xe_build.Svod.Writer.{Hash, Block, SvodFile, zero_hash, level0_page, hash_chunks, update}

-- The bytes of a package: 0x1000 from the sector of the XGD magic, then the disc from the first
-- sector in use on.
unfoldable pub payload : Disc → ℕ → Memory
payload d min_sector k =
    if ltb k 0x1000
    then d.byte (set_iso_sector d 0x20 + k)
    else d.byte (set_iso_sector d min_sector + (k - 0x1000))

pub payload_rest :
    (d : Disc) (min_sector k : ℕ)
    → 0x1000 ≤ k
    → payload d min_sector k ≡ d.byte (set_iso_sector d min_sector + (k - 0x1000))
unfolding payload
payload_rest d min_sector k h = ground arith

-- Blocks of 0xCC chunks that hold `chunks` chunks.
abbrev pub blocks_for : ℕ → ℕ
blocks_for chunks = (chunks + 0xcb) / 0xcc

-- Files of 0xCB blocks that hold `blocks` blocks.
abbrev pub files_for : ℕ → ℕ
files_for blocks = (blocks + 0xca) / 0xcb

module _ (sha : List ℕ → Hash) (source : Memory) (total : ℕ) where
  -- Block number `i` of a package of `total` chunks: as many chunks as there are left, 0xCC at
  -- most, the data of the source, the hash of each chunk, and no hash behind those.
  pub record BlockIs (i : ℕ) (b : Block) : Type 0 where
    pub count : b.chunks ≡ min 0xcc (total - i * 0xcc)
    pub bytes : (k : ℕ) → k < b.chunks * 0x1000 → b.content.bytes k ≡ source (i * 0xcc000 + k)
    pub hashes :
        (c : ℕ)
        → c < b.chunks
        → b.content.hashes c ≡ sha (slice source (i * 0xcc000 + c * 0x1000) 0x1000)
    pub unused : (c : ℕ) → b.chunks ≤ c → b.content.hashes c ≡ zero_hash

  -- The blocks of a file, newest first, from block number `base` on, with their entries in the
  -- file's own hash page.
  abbrev pub BlocksAre : ℕ → (ℕ → Hash) → List Block → Type 0
  BlocksAre base entries [] = Unit
  BlocksAre base entries (b ∷ bs) =
      BlockIs (base + length bs) b
      × (entries (length bs) ≡ sha (level0_page b.content.hashes))
      × BlocksAre base entries bs

  pub record FileIs (n : ℕ) (f : SvodFile) : Type 0 where
    pub count : length f.blocks ≡ min 0xcb (blocks_for total - n * 0xcb)
    pub blocks : BlocksAre (n * 0xcb) f.header.entries f.blocks
    pub unused : (c : ℕ) → length f.blocks ≤ c → f.header.entries c ≡ zero_hash

  -- The files of a package, newest first.
  abbrev pub FilesAre : List SvodFile → Type 0
  FilesAre [] = Unit
  FilesAre (f ∷ fs) = FileIs (length fs) f × FilesAre fs

  -- An entry behind those of the blocks does not matter.
  pub BlocksAre-update :
      (base : ℕ) (entries : ℕ → Hash) (bs : List Block) (j : ℕ) (v : Hash)
      → length bs ≤ j
      → BlocksAre base entries bs
      → BlocksAre base (update entries j v) bs
  BlocksAre-update base entries [] j v le h = tt
  BlocksAre-update base entries (b ∷ bs) j v le h =
      (h.0, ground (arith, h.1), BlocksAre-update base entries bs j v (omega arith) h.2)

pub slice_ext :
    (m m' : Memory) (off off' n : ℕ)
    → ((k : ℕ) → k < n → m (off + k) ≡ m' (off' + k))
    → slice m off n ≡ slice m' off' n
unfolding slice
slice_ext m m' off off' zero h = refl
slice_ext m m' off off' (suc n) h = ap₂ ◌∷◌ first (slice_ext m m' (off + 1) (off' + 1) n rest)
  where
    first : m off ≡ m' off'
    first = subst₂ (λ a b. m a ≡ m' b) (omega arith) (omega arith) (h 0 (omega arith))

    rest : (k : ℕ) → k < n → m (off + 1 + k) ≡ m' (off' + 1 + k)
    rest k lt = subst₂ (λ a b. m a ≡ m' b) (omega arith) (omega arith) (h (suc k) (omega arith))

-- The hashes that the loop of `doBlockHashes` leaves.
pub hash_chunks_lem :
    (sha : List ℕ → Hash) (opens : ℕ → Bool) (d : Disc) (mem : Memory) (left i : ℕ)
    (hashes : ℕ → Hash) (c : ℕ)
    → hash_chunks sha opens d mem left i hashes c
      ≡ (if leb i c && ltb c (i + left) then sha (slice mem (c * 0x1000) 0x1000) else hashes c)
unfolding hash_chunks
hash_chunks_lem sha opens d mem zero i hashes c = ground arith
hash_chunks_lem sha opens d mem (suc left) i hashes c = ground (
  arith,
  hash_chunks_lem sha opens d mem left (i + 1)
      (update hashes i (sha (slice mem (i * 0x1000) 0x1000))) c,
)
