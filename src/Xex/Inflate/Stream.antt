-- ===== src/Xex/Inflate/Stream.antt =====
-- What `rebufInData` makes of a chain of blocks.
use xe_build.Base.{
  ℕ, zero, suc, ◌+◌, ◌^◌, ◌≤◌, ◌<◌, ◌≡◌, ◌≢◌, ◌⊎◌, inl, inr, refl, sym, ap, ◌∙◌, Bool, true, false,
  ◌&&◌, some, List, [], ◌∷◌, ◌++◌, length, length-append, arith, All, ltb, leb, ◌!=◌, u32,
}
use mathlib.Core.List.{append_assoc, append-nil}
use xe_build.Bytes.{get_be16, get_be32}
use xe_build.Svod.Disc.{Memory, slice}
use xe_build.Xex.Inflate.{copy_parts, copy_blocks, rebuf_in_data}
use xe_build.Xex.Inflate.Chain.{
  Block, part_bytes, block_bytes, first_size, chain_bytes, joined, stream, IsPart, IsBlock, Stands,
  Stands-append, slice-Stands, read16, read32,
}
use xe_build.Bytes.{bytes16, bytes32}

-- The two rounds of the loop over a block's parts.
copy_parts_end :
    (in_len fuel : ℕ) (mem : Memory) (pos : ℕ) (buf : List ℕ)
    → get_be16 (slice mem pos 2) 0 ≡ 0
    → copy_parts in_len (suc fuel) mem pos buf ≡ some buf
unfolding copy_parts
copy_parts_end in_len fuel mem pos buf mark = rw (mark, copy_parts) refl

copy_parts_next :
    (in_len fuel : ℕ) (mem : Memory) (pos : ℕ) (p buf : List ℕ)
    → 0 < length p
    → pos + 2 + length p < 2 ^ 32
    → get_be16 (slice mem pos 2) 0 ≡ length p
    → slice mem (pos + 2) (length p) ≡ p
    → length buf + length p ≤ in_len
    → copy_parts in_len (suc fuel) mem pos buf
      ≡ copy_parts in_len fuel mem (pos + 2 + length p) (buf ++ p)
unfolding copy_parts
copy_parts_next in_len fuel mem pos p buf more small len here room =
    let n = get_be16 (slice mem pos 2) 0 in
    let go : (n != 0) ≡ true = ground (arith, more, len) in
    let one : u32 (pos + 2) ≡ pos + 2 = omega (arith, small) in
    let two : u32 (pos + 2 + n) ≡ pos + 2 + length p = omega (arith, len, small) in
    let here' : slice mem (pos + 2) n ≡ p = rw len here in
    let fits : leb (length buf + n) in_len ≡ true = ground (arith, len, room) in
    rw (go, fits, one, two, here', copy_parts) refl

-- The loop over a block's parts, and then over the blocks.
copy_parts_lem :
    (in_len fuel : ℕ) (mem : Memory) (pos : ℕ) (ps : List (List ℕ)) (buf : List ℕ)
    → Stands mem pos (part_bytes ps)
    → pos + length (part_bytes ps) < 2 ^ 32
    → All IsPart ps
    → length ps < fuel
    → length buf + length (joined ps) ≤ in_len
    → copy_parts in_len fuel mem pos buf ≡ some (buf ++ joined ps)
unfolding part_bytes joined
copy_parts_lem in_len zero mem pos ps buf h small parts enough room = absurd (omega arith)
copy_parts_lem in_len (suc fuel) mem pos [] buf h small parts enough room =
    rw (append-nil buf) (copy_parts_end in_len fuel mem pos buf (read16 mem pos 0 (omega arith) h))
copy_parts_lem in_len (suc fuel) mem pos (p ∷ ps) buf h small parts enough room =
    let (size, rest) = Stands-append mem pos (bytes16 (length p)) (p ++ part_bytes ps) h in
    let (here, more) = Stands-append mem (pos + 2) p (part_bytes ps) rest in
    let total = length-append p (part_bytes ps) in
    let longer = length-append p (joined ps) in
    copy_parts_next in_len fuel mem pos p buf parts.0.0 (omega (arith, total, small))
      (read16 mem pos (length p) parts.0.1 size) (slice-Stands mem (pos + 2) p here)
      (omega (arith, longer, room))
    ∙ (copy_parts_lem in_len fuel mem (pos + 2 + length p) ps (buf ++ p) more
          (omega (arith, total, small)) parts.1 (omega arith)
          (omega (arith, longer, room, length-append buf p))
        ∙ ap some (append_assoc buf p (joined ps)))

-- The loop over the blocks: its end, and a round.
copy_blocks_end :
    (fuel : ℕ) (mem : Memory) (in_len curr last len next : ℕ) (buf : List ℕ)
    → in_len ≤ curr
    → copy_blocks (suc fuel) mem in_len curr last len next buf ≡ some buf
unfolding copy_blocks
copy_blocks_end fuel mem in_len curr last len next buf le =
    let stop : ltb curr in_len ≡ false = ground arith in rw (stop, copy_blocks) refl

copy_blocks_next :
    (fuel : ℕ) (mem : Memory) (in_len pos len next size : ℕ) (buf buf' : List ℕ)
    → pos < in_len
    → next ≢ 0
    → pos + 0x18 < 2 ^ 32
    → pos + len < 2 ^ 32
    → get_be32 (slice mem pos 4) 0 ≡ size
    → copy_parts in_len fuel mem (pos + 0x18) buf ≡ some buf'
    → copy_blocks (suc fuel) mem in_len pos pos len next buf
      ≡ copy_blocks fuel mem in_len (pos + len) (pos + len) size size buf'
unfolding copy_blocks
copy_blocks_next fuel mem in_len pos len next size buf buf' lt ne small small' word run =
    let go : (ltb pos in_len && next != 0) ≡ true = ground arith in
    let one : u32 (pos + 0x18) ≡ pos + 0x18 = omega (arith, small) in
    let two : u32 (pos + len) ≡ pos + len = omega (arith, small') in
    rw (go, one, run, two, word, copy_blocks) refl

-- Fuel for a chain: one unit for each block and, in the one with the most, for each part.
abbrev pub fuel_of : List Block → ℕ
fuel_of [] = 1
fuel_of (b ∷ bs) = suc (suc (length b.parts) + fuel_of bs)

first_size_ne : (bs : List Block) → (first_size bs ≢ 0) ⊎ (bs ≡ [])
first_size_ne [] = inr refl
first_size_ne (b ∷ bs) = inl (omega arith)

first_size_le : (bs : List Block) → first_size bs ≤ length (chain_bytes bs)
unfolding chain_bytes
first_size_le [] = omega arith
first_size_le (b ∷ bs) =
    omega (arith, length-append (block_bytes (first_size bs) b) (chain_bytes bs))

copy_blocks_lem :
    (fuel : ℕ) (mem : Memory) (pos next in_len : ℕ) (bs : List Block) (buf : List ℕ)
    → Stands mem pos (chain_bytes bs)
    → All IsBlock bs
    → pos + length (chain_bytes bs) ≡ in_len
    → in_len < 2 ^ 32
    → (next ≢ 0) ⊎ (bs ≡ [])
    → fuel_of bs ≤ fuel
    → length buf + length (stream bs) ≤ in_len
    → copy_blocks fuel mem in_len pos pos (first_size bs) next buf ≡ some (buf ++ stream bs)
unfolding chain_bytes stream
copy_blocks_lem zero mem pos next in_len [] buf h good total small go enough room =
    absurd (omega arith)
copy_blocks_lem zero mem pos next in_len (b ∷ bs) buf h good total small go enough room =
    absurd (omega arith)
copy_blocks_lem (suc fuel) mem pos next in_len [] buf h good total small go enough room =
    rw (append-nil buf)
      (copy_blocks_end fuel mem in_len pos pos (first_size []) next buf (omega (arith, total)))
copy_blocks_lem (suc fuel) mem pos next in_len (b ∷ bs) buf h good total small go enough room =
    let (block, rest) = Stands-append mem pos (block_bytes (first_size bs) b) (chain_bytes bs) h in
    let (word, back) =
      Stands-append mem pos (bytes32 (first_size bs)) (b.hash ++ (part_bytes b.parts ++ b.tail))
        block in
    let (h', back') = Stands-append mem (pos + 4) b.hash (part_bytes b.parts ++ b.tail) back in
    let (here, t) = Stands-append mem (pos + 4 + length b.hash) (part_bytes b.parts) b.tail back' in
    let outer = length-append b.hash (part_bytes b.parts ++ b.tail) in
    let inner = length-append (part_bytes b.parts) b.tail in
    let len = first_size (b ∷ bs) in
    let whole : pos + (len + length (chain_bytes bs)) ≡ in_len =
      omega (arith, total, length-append (block_bytes (first_size bs) b) (chain_bytes bs)) in
    let ne : next ≢ 0 = elim go [ inl n ↦ n | inr e ↦ absurd cc ] in
    let place : pos + 4 + length b.hash ≡ pos + 0x18 = omega (arith, good.0.0) in
    let longer = length-append (joined b.parts) (stream bs) in
    let run : copy_parts in_len fuel mem (pos + 0x18) buf ≡ some (buf ++ joined b.parts) =
      ap (λ p. copy_parts in_len fuel mem p buf) (sym place)
      ∙ copy_parts_lem in_len fuel mem (pos + 4 + length b.hash) b.parts buf here
          (omega (arith, outer, inner, whole, small, good.0.0)) good.0.1 (omega (arith, enough))
          (omega (arith, longer, room)) in
    copy_blocks_next fuel mem in_len pos len next (first_size bs) buf (buf ++ joined b.parts)
      (omega (arith, whole)) ne (omega (arith, outer, inner, whole, small, good.0.0))
      (omega (arith, whole, small))
      (read32 mem pos (first_size bs) (omega (arith, first_size_le bs, whole, small)) word) run
    ∙ (copy_blocks_lem fuel mem (pos + len) (first_size bs) in_len bs (buf ++ joined b.parts) rest
          good.1 (omega (arith, whole)) small (first_size_ne bs) (omega (arith, enough))
          (omega (arith, longer, room, length-append buf (joined b.parts)))
        ∙ ap some (append_assoc buf (joined b.parts) (stream bs)))

-- The stream fits the buffer that is made for it.
joined_le : (ps : List (List ℕ)) → length (joined ps) ≤ length (part_bytes ps)
unfolding joined part_bytes
joined_le [] = omega arith
joined_le (p ∷ ps) =
    omega (arith, length-append p (joined ps), length-append p (part_bytes ps), joined_le ps)

stream_le : (bs : List Block) → length (stream bs) ≤ length (chain_bytes bs)
unfolding stream chain_bytes
stream_le [] = omega arith
stream_le (b ∷ bs) = omega (
  arith,
  length-append (joined b.parts) (stream bs),
  length-append (block_bytes (first_size bs) b) (chain_bytes bs),
  length-append b.hash (part_bytes b.parts ++ b.tail),
  length-append (part_bytes b.parts) b.tail,
  joined_le b.parts,
  stream_le bs,
)

-- For a chain of blocks that stands in memory, each with a hash of 20 bytes and with parts of 1 to
-- 65535 bytes, shorter than 4 GB in all, and with memory for a buffer of its size, `rebufInData`
-- ends with the fuel that the chain asks for. Its result is the concatenation of the parts, without
-- the sizes, the hashes and what follows a block's last part, and it is no longer than the buffer
-- that is allocated for it.
pub rebuf_in_data_lem :
    (alloc : ℕ → Bool) (fuel : ℕ) (mem : Memory) (bs : List Block)
    → Stands mem 0 (chain_bytes bs)
    → All IsBlock bs
    → length (chain_bytes bs) < 2 ^ 32
    → alloc (length (chain_bytes bs)) ≡ true
    → fuel_of bs ≤ fuel
    → (rebuf_in_data alloc fuel mem (length (chain_bytes bs)) (first_size bs)
        ≡ some (some (stream bs)))
      × (length (stream bs) ≤ length (chain_bytes bs))
unfolding rebuf_in_data
rebuf_in_data_lem alloc fuel mem bs h good small room enough =
    let run =
      copy_blocks_lem fuel mem 0 1 (length (chain_bytes bs)) bs [] h good (omega arith) small
        (inl (omega arith)) enough (omega (arith, stream_le bs)) in
    (rw (room, run) refl, stream_le bs)
