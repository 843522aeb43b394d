-- ===== src/DlPatches/Entries.antt =====
-- What the header says of the files behind it.
use xe_build.Base.{
  ℕ, suc, ◌+◌, ◌*◌, ◌/◌, ◌%◌, ◌^◌, ◌≤◌, ◌<◌, ◌≡◌, refl, sym, ap, ◌∙◌, Bool, true, Option, some,
  List, [], ◌∷◌, ◌++◌, length, length-append, replicate, arith, All, Option-cases, inl, inr, u32,
}
use mathlib.Core.Path.{subst}
use xe_build.Svod.Disc.{Memory, slice}
use xe_build.Xex.Inflate.Chain.{Stands, Stands-append, slice-Stands, read32, list_memory-Stands}
use xe_build.Bytes.{bytes32}
use xe_build.Xex.Inflate.{list_memory}
use Prim.Native.String.{String}
use xe_build.Xex.Info.{word_at}
use xe_build.DlPatches.{
  Item, Loaded, file_list, get_item_data, get_items, main, u32_rev, store32, head_size, entry_bytes,
  fill_entries, header_bytes, contents,
}

-- A word that is reversed and stored stands in big-endian order.
store32-u32_rev : (x : ℕ) → x < 2 ^ 32 → store32 (u32_rev x) ≡ bytes32 x
unfolding u32_rev
store32-u32_rev x small =
    let a : u32_rev x % 256 ≡ x / 2 ^ 24 % 256 = omega arith in
    let b : u32_rev x / 2 ^ 8 % 256 ≡ x / 2 ^ 16 % 256 = omega arith in
    let c : u32_rev x / 2 ^ 16 % 256 ≡ x / 2 ^ 8 % 256 = omega arith in
    let d : u32_rev x / 2 ^ 24 % 256 ≡ x % 256 = omega arith in λ i. a i ∷ b i ∷ c i ∷ d i ∷ []

read_stored :
    (mem : Memory) (pos x : ℕ)
    → x < 2 ^ 32
    → Stands mem pos (store32 (u32_rev x))
    → word_at mem pos ≡ x
read_stored mem pos x small h =
    read32 mem pos x small (subst (Stands mem pos) (store32-u32_rev x small) h)

-- An entry in memory.
entry_at :
    (mem : Memory) (pos off : ℕ) (f : Loaded)
    → f.kind < 2 ^ 32
    → length f.content < 2 ^ 32
    → off < 2 ^ 32
    → Stands mem pos (entry_bytes f off)
    → (word_at mem pos ≡ f.kind)
      × (word_at mem (pos + 4) ≡ length f.content)
      × (word_at mem (pos + 8) ≡ off)
unfolding entry_bytes
entry_at mem pos off f kind len small h =
    let (one, h₁) = Stands-append mem pos (store32 (u32_rev f.kind)) _ h in
    let (two, h₂) = Stands-append mem (pos + 4) (store32 (u32_rev (length f.content))) _ h₁ in
    let (three, h₃) = Stands-append mem (pos + 4 + 4) (store32 (u32_rev off)) _ h₂ in
    let place : pos + 4 + 4 ≡ pos + 8 = omega arith in
    (
      read_stored mem pos f.kind kind one,
      read_stored mem (pos + 4) (length f.content) len two,
      ap (word_at mem) (sym place) ∙ read_stored mem (pos + 4 + 4) off small three,
    )

-- An entry of a list of them, and the file that it speaks of.
pub record Describes (mem : Memory) (pos base : ℕ) (f : Loaded) : Type 0 where
  pub kind : word_at mem pos ≡ f.kind
  pub size : word_at mem (pos + 4) ≡ length f.content
  pub bytes : slice mem (base + word_at mem (pos + 8)) (length f.content) ≡ f.content

length-entry_bytes : (f : Loaded) (off : ℕ) → length (entry_bytes f off) ≡ 0x10
unfolding entry_bytes
length-entry_bytes f off = refl

entries-Describes :
    (before : List Loaded) (f : Loaded) (behind : List Loaded) (mem : Memory) (pos base off : ℕ)
    → All (λ g. g.kind < 2 ^ 32) (before ++ f ∷ behind)
    → off + length (contents (before ++ f ∷ behind)) < 2 ^ 32
    → Stands mem pos (fill_entries (before ++ f ∷ behind) off)
    → Stands mem (base + off) (contents (before ++ f ∷ behind))
    → Describes mem (pos + 0x10 * length before) base f
unfolding fill_entries contents
entries-Describes [] f behind mem pos base off kinds small h c =
    let sizes = length-append f.content (contents behind) in
    let (own, rest) =
      Stands-append mem pos (entry_bytes f off) (fill_entries behind (u32 (off + length f.content)))
        h in
    let (here, next) = Stands-append mem (base + off) f.content (contents behind) c in
    let (kind, size, place) =
      entry_at mem pos off f kinds.0 (omega (arith, sizes, small)) (omega (arith, small)) own in
    let at : pos ≡ pos + 0x10 * 0 = omega arith in
    subst (λ p. Describes mem p base f) at
      (record {
        kind = kind;
        size = size;
        bytes = rw place (slice-Stands mem (base + off) f.content here);
      })
entries-Describes (g ∷ before) f behind mem pos base off kinds small h c =
    let all = before ++ f ∷ behind in
    let sizes = length-append g.content (contents all) in
    let next : u32 (off + length g.content) ≡ off + length g.content =
      omega (arith, sizes, small) in
    let (own, rest) =
      Stands-append mem pos (entry_bytes g off) (fill_entries all (u32 (off + length g.content)))
        h in
    let (here, more) = Stands-append mem (base + off) g.content (contents all) c in
    let place : base + off + length g.content ≡ base + (off + length g.content) = omega arith in
    let at : pos + 0x10 + 0x10 * length before ≡ pos + 0x10 * suc (length before) = omega arith in
    subst (λ p. Describes mem p base f) at
      (entries-Describes before f behind mem (pos + 0x10) base (off + length g.content) kinds.1
        (omega (arith, sizes, small))
        (subst (λ o. Stands mem (pos + 0x10) (fill_entries all o)) next
          (subst (λ n. Stands mem (pos + n) (fill_entries all (u32 (off + length g.content))))
            (length-entry_bytes g off) rest))
        (subst (λ p. Stands mem p (contents all)) place more))

length-fill_entries : (fs : List Loaded) (off : ℕ) → length (fill_entries fs off) ≡ 0x10 * length fs
unfolding fill_entries
length-fill_entries [] off = omega arith
length-fill_entries (f ∷ fs) off =
    let own = length-entry_bytes f off in
    let rest = length-fill_entries fs (u32 (off + length f.content)) in
    omega (
      arith,
      length-append (entry_bytes f off) (fill_entries fs (u32 (off + length f.content))),
      own,
      rest,
    )

-- The header, in memory with the files behind it.
header_bytes-Describes :
    (mem : Memory) (before : List Loaded) (f : Loaded) (behind : List Loaded)
    → let fs = before ++ f ∷ behind in
      Stands mem 0 (header_bytes fs ++ contents fs)
      → All (λ g. g.kind < 2 ^ 32) fs
      → length (contents fs) < 2 ^ 32
      → length fs < 2 ^ 27
      → (word_at mem 0 ≡ 0x10 + 0x10 * length fs)
        × (word_at mem 4 ≡ length fs)
        × Describes mem (0x10 + 0x10 * length before) (word_at mem 0) f
unfolding header_bytes head_size
header_bytes-Describes mem before f behind h kinds small few =
    let fs = before ++ f ∷ behind in
    let (head, bytes) = Stands-append mem 0 (header_bytes fs) (contents fs) h in
    let (one, h₁) = Stands-append mem 0 (store32 (u32_rev (head_size (length fs)))) _ head in
    let (two, h₂) = Stands-append mem 4 (store32 (u32_rev (length fs))) _ h₁ in
    let (fill, h₃) = Stands-append mem 8 (replicate 8 0xff) (fill_entries fs 0) h₂ in
    let some_file : 0 < length fs = omega (arith, length-append before (f ∷ behind)) in
    let size : head_size (length fs) ≡ 0x10 + 0x10 * length fs = omega (arith, few, some_file) in
    let word : word_at mem 0 ≡ 0x10 + 0x10 * length fs =
      read_stored mem 0 (head_size (length fs)) (omega (arith, few)) one ∙ size in
    let start : 0 + length (header_bytes fs) ≡ word_at mem 0 + 0 =
      omega (arith, word, length-fill_entries fs 0) in
    (
      word,
      read_stored mem 4 (length fs) (omega (arith, few)) two,
      entries-Describes before f behind mem 0x10 (word_at mem 0) 0 kinds (omega (arith, small)) h₃
          (subst (λ p. Stands mem p (contents fs)) start bytes),
    )

-- The files that are found, of those in the list.
get_items_lem :
    (read_file : String → Option (List ℕ)) (items : List Item)
    → All (λ i. i.item_type < 2 ^ 32) items
    → (length (get_items read_file items) ≤ length items)
      × All (λ g. g.kind < 2 ^ 32) (get_items read_file items)
unfolding get_items
get_items_lem read_file [] h = (omega arith, tt)
get_items_lem read_file (item ∷ items) h =
    let (len, all) = get_items_lem read_file items h.1 in
    elim (Option-cases (get_item_data read_file item)) [
      | inl e ↦ rw (e, get_items) (omega (arith, len), all)
      | inr d ↦ rw (d.1, get_items) (omega (arith, len), (h.0, all))
    ]

file_list-types : All (λ i. i.item_type < 2 ^ 32) file_list
unfolding file_list
file_list-types = (
  omega arith,
  (
    omega arith,
    (
      omega arith,
      (
        omega arith,
        (
          omega arith,
          (
            omega arith,
            (
              omega arith,
              (
                omega arith,
                (
                  omega arith,
                  (omega arith, (omega arith, (omega arith, (omega arith, (omega arith, tt))))),
                ),
              ),
            ),
          ),
        ),
      ),
    ),
  ),
)

-- `main`, when it can create its file and allocate the header, and the files that it finds have
-- less than 4 GB together, returns 0 and leaves a file as follows for each of them. Its first two
-- words are the size of the header and the number of files found; the entry at the file's place in
-- the list has its type and its size; and at the end of the header, with the entry's offset added,
-- stand the file's bytes.
pub main-Describes :
    (read_file : String → Option (List ℕ)) (alloc : ℕ → Bool) (before : List Loaded) (f : Loaded)
    (behind : List Loaded)
    → get_items read_file file_list ≡ before ++ f ∷ behind
    → alloc (head_size (length (before ++ f ∷ behind))) ≡ true
    → length (contents (before ++ f ∷ behind)) < 2 ^ 32
    → (out : List ℕ) × (main read_file true alloc ≡ record { ret = 0; output = some out })
      × (word_at (list_memory out) 0 ≡ 0x10 + 0x10 * length (before ++ f ∷ behind))
      × (word_at (list_memory out) 4 ≡ length (before ++ f ∷ behind))
      × Describes (list_memory out) (0x10 + 0x10 * length before) (word_at (list_memory out) 0) f
unfolding main
main-Describes read_file alloc before f behind found room small =
    let fs = before ++ f ∷ behind in
    let out = header_bytes fs ++ contents fs in
    let (len, kinds) = get_items_lem read_file file_list file_list-types in
    let few : length fs < 2 ^ 27 =
      unfold file_list in omega (arith, len, ap (length {A = Loaded}) found) in
    let (size, count, entry) =
      header_bytes-Describes (list_memory out) before f behind (list_memory-Stands out)
        (subst (All (λ g. g.kind < 2 ^ 32)) found kinds) small few in
    (out, rw (found, room) refl, size, count, entry)
