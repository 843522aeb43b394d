-- ===== src/Xex/Info/Raw.antt =====
-- The image of an executable that is stored in raw records.
use xe_build.Base.{
  ℕ, zero, suc, ◌+◌, ◌-◌, ◌^◌, ◌≤◌, ◌<◌, ◌≡◌, refl, ap, ◌∙◌, true, ◌&&◌, ◌||◌, some, List, [], ◌∷◌,
  ◌++◌, length, length-append, length-replicate, replicate, arith, ltb, leb, ◌==◌, if◌then◌else◌,
  u32,
}
use mathlib.Core.Path.{subst}
use xe_build.Bytes.{byte_at}
use xe_build.Svod.Disc.{Memory}
use xe_build.Svod.Scan.{blank}
use xe_build.Xex.Inflate.Chain.{Stands, Stands-append, read32}
use xe_build.Bytes.{bytes32}
use xe_build.Xex.Info.{word_at, expand_raw}

-- A record: bytes, and how many zeros follow them in the image.
pub record Piece : Type 0 where
  pub content : List ℕ
  pub gap : ℕ

-- The records of the descriptor, what stands in the file, and the image.
unfoldable pub descriptor : List Piece → List ℕ
descriptor [] = []
descriptor (p ∷ ps) = bytes32 (length p.content) ++ (bytes32 p.gap ++ descriptor ps)

unfoldable pub stored : List Piece → List ℕ
stored [] = []
stored (p ∷ ps) = p.content ++ stored ps

unfoldable pub image_of : List Piece → List ℕ
image_of [] = []
image_of (p ∷ ps) = p.content ++ (replicate p.gap 0 ++ image_of ps)

byte_at-append :
    (xs ys : List ℕ) (k : ℕ)
    → byte_at (xs ++ ys) k
      ≡ (if ltb k (length xs) then byte_at xs k else byte_at ys (k - length xs))
byte_at-append [] ys k = let e : k - 0 ≡ k = omega arith in ground (arith, ap (byte_at ys) e)
byte_at-append (x ∷ xs) ys zero = ground arith
byte_at-append (x ∷ xs) ys (suc k) =
    let e : suc k - suc (length xs) ≡ k - length xs = omega arith in
    let s : ltb (suc k) (suc (length xs)) ≡ ltb k (length xs) = ground arith in
    byte_at-append xs ys k ∙ rw (e, s) refl

byte_at-replicate : (n k : ℕ) → byte_at (replicate n 0) k ≡ 0
byte_at-replicate zero k = refl
byte_at-replicate (suc n) zero = refl
byte_at-replicate (suc n) (suc k) = byte_at-replicate n k

Stands-byte_at :
    (mem : Memory) (pos : ℕ) (xs : List ℕ) (k : ℕ)
    → Stands mem pos xs
    → k < length xs
    → mem (pos + k) ≡ byte_at xs k
unfolding Stands
Stands-byte_at mem pos [] k h lt = absurd (omega arith)
Stands-byte_at mem pos (x ∷ xs) zero h lt = let e : pos + 0 ≡ pos = omega arith in ap mem e ∙ h.0
Stands-byte_at mem pos (x ∷ xs) (suc k) h lt =
    let e : pos + suc k ≡ pos + 1 + k = omega arith in
    ap mem e ∙ Stands-byte_at mem (pos + 1) xs k h.1 (omega arith)

-- An image of one record and what follows, in numbers.
image_of-next :
    (p : Piece) (ps : List Piece) (k : ℕ)
    → byte_at (image_of (p ∷ ps)) k ≡ (
        if ltb k (length p.content)
        then byte_at p.content k
        else if ltb (k - length p.content) p.gap
        then 0
        else byte_at (image_of ps) (k - length p.content - p.gap))
unfolding image_of
image_of-next p ps k =
    let rest = byte_at-append (replicate p.gap 0) (image_of ps) (k - length p.content) in
    byte_at-append p.content (replicate p.gap 0 ++ image_of ps) k
    ∙ rw (rest, length-replicate {A = ℕ} p.gap 0, byte_at-replicate p.gap (k - length p.content))
        refl

-- One round.
expand_raw-next :
    (size left : ℕ) (mem : Memory) (desc cur : ℕ) (out : Memory) (pos : ℕ) (p : Piece)
    → word_at mem desc ≡ length p.content
    → word_at mem (desc + 4) ≡ p.gap
    → pos + length p.content + p.gap < 2 ^ 32
    → pos + length p.content ≤ size
    → expand_raw size (suc left) mem desc cur out pos
      ≡ expand_raw size left mem
          (desc + 8)
          (cur + length p.content)
          (λ k.
            if leb pos k && ltb k (pos + length p.content) then mem (cur + (k - pos)) else out k)
          (pos + length p.content + p.gap)
expand_raw-next size left mem desc cur out pos p one two small room =
    let e : u32 (u32 (pos + length p.content) + p.gap) ≡ pos + length p.content + p.gap =
      omega (arith, small) in
    let fits : (word_at mem desc == 0 || leb (pos + word_at mem desc) size) ≡ true =
      rw one (ground (arith, room)) in
    unfold expand_raw in rw (fits, one, two, e, expand_raw) refl

-- What a byte of the image is behind one round and the others.
after_round :
    (mem : Memory) (cur : ℕ) (out : Memory) (pos : ℕ) (p : Piece) (ps : List Piece) (k : ℕ)
    → Stands mem cur p.content
    → ((k : ℕ) → pos ≤ k → out k ≡ 0)
    → let n = length p.content in
      (if ltb k (pos + n + p.gap)
        then if leb pos k && ltb k (pos + n) then mem (cur + (k - pos)) else out k
        else byte_at (image_of ps) (k - (pos + n + p.gap)))
      ≡ (if ltb k pos then out k else byte_at (image_of (p ∷ ps)) (k - pos))
after_round mem cur out pos p ps k here clear =
    let n = length p.content in
    let same : k - pos - n - p.gap ≡ k - (pos + n + p.gap) = omega arith in
    let next = image_of-next p ps (k - pos) in
    let own = Stands-byte_at mem cur p.content (k - pos) here in
    ground (arith, next, own, clear k, ap (byte_at (image_of ps)) same)

expand_raw_lem :
    (ps : List Piece) (size : ℕ) (mem : Memory) (desc cur : ℕ) (out : Memory) (pos : ℕ)
    → Stands mem desc (descriptor ps)
    → Stands mem cur (stored ps)
    → pos + length (image_of ps) < 2 ^ 32
    → pos + length (image_of ps) ≤ size
    → ((k : ℕ) → pos ≤ k → out k ≡ 0)
    → (r : Memory) × (expand_raw size (length ps) mem desc cur out pos ≡ some r)
      × ((k : ℕ) → r k ≡ (if ltb k pos then out k else byte_at (image_of ps) (k - pos)))
unfolding descriptor stored image_of
expand_raw_lem [] size mem desc cur out pos d s small room clear =
    (out, unfold expand_raw in refl, λ k. ground (arith, clear k))
expand_raw_lem (p ∷ ps) size mem desc cur out pos d s small room clear =
    let n = length p.content in
    let (one, more) = Stands-append mem desc (bytes32 n) (bytes32 p.gap ++ descriptor ps) d in
    let (two, rest) = Stands-append mem (desc + 4) (bytes32 p.gap) (descriptor ps) more in
    let (here, next) = Stands-append mem cur p.content (stored ps) s in
    let outer = length-append p.content (replicate p.gap 0 ++ image_of ps) in
    let inner = length-append (replicate p.gap 0) (image_of ps) in
    let gap = length-replicate {A = ℕ} p.gap 0 in
    let place : desc + 4 + 4 ≡ desc + 8 = omega arith in
    let out' : Memory =
      λ k. if leb pos k && ltb k (pos + n) then mem (cur + (k - pos)) else out k in
    let fits : pos + n + p.gap + length (image_of ps) < 2 ^ 32 =
      omega (arith, outer, inner, gap, small) in
    let within : pos + n + p.gap + length (image_of ps) ≤ size =
      omega (arith, outer, inner, gap, room) in
    let step =
      expand_raw-next size (length ps) mem desc cur out pos p
        (read32 mem desc n (omega (arith, fits)) one)
        (read32 mem (desc + 4) p.gap (omega (arith, fits)) two) (omega (arith, fits))
        (omega (arith, within)) in
    let (r, run, same) =
      expand_raw_lem ps size mem (desc + 8) (cur + n) out' (pos + n + p.gap)
        (subst (λ q. Stands mem q (descriptor ps)) place rest) next fits within
        (λ k le. ground (arith, le, clear k)) in
    (r, step ∙ run, λ k. same k ∙ after_round mem cur out pos p ps k here clear)

-- For records of data and zeros that stand in the descriptor, and their data one behind the other
-- in the file, the image is the data of each record with its zeros behind it, in their order, and
-- zeros to its end. The image is shorter than 4 GB and fits the `size` bytes that it gets.
pub expand_raw-image_of :
    (ps : List Piece) (size : ℕ) (mem : Memory) (desc cur : ℕ)
    → Stands mem desc (descriptor ps)
    → Stands mem cur (stored ps)
    → length (image_of ps) < 2 ^ 32
    → length (image_of ps) ≤ size
    → (r : Memory) × (expand_raw size (length ps) mem desc cur blank 0 ≡ some r)
      × ((k : ℕ) → r k ≡ byte_at (image_of ps) k)
expand_raw-image_of ps size mem desc cur d s small room =
    let (r, run, same) =
      expand_raw_lem ps size mem desc cur blank 0 d s (omega (arith, small)) (omega (arith, room))
        (λ k le. refl) in
    (
      r,
      run,
      λ k. let e : k - 0 ≡ k = omega arith in same k ∙ ground (arith, ap (byte_at (image_of ps)) e),
    )
