-- ===== src/Boot/Patch.antt =====
-- `patchEngine` of reboot_core/main.c. The patch area is a list of words; `none` means that the
-- code reads past its end.
use xe_build.Base.{
  ℕ, zero, suc, ◌+◌, ◌*◌, ◌<◌, ◌≡◌, ◌≢◌, refl, true, false, Option, none, some, List, [], ◌∷◌, ◌++◌,
  arith, length, leb, ◌==◌, if◌then◌else◌,
}
use xe_build.Boot.{Words, store}

abbrev pub end_mark : ℕ
end_mark = 0xffffffff

-- The inner loop: `count` words to `tmp`.
pub write_words : Words → ℕ → ℕ → List ℕ → Option (Words × List ℕ)
write_words mem tmp zero s = some (mem, s)
write_words mem tmp (suc count) [] = none
write_words mem tmp (suc count) (w ∷ s) = write_words (store mem tmp w) (tmp + 4) count s

-- The patches of the first stage, with the address at hand; fuel bounds their number.
pub apply_patches : ℕ → ℕ → Words → ℕ → List ℕ → Option (Words × List ℕ)
apply_patches zero dest mem addr s = none
apply_patches (suc fuel) dest mem addr s = elim (addr == end_mark) [
  | true ↦ some (mem, s)
  | false ↦ elim s [
    | [] ↦ none
    | count ∷ s' ↦ elim (write_words mem (dest + addr) count s') [
      | none ↦ none
      | some (mem', s₂) ↦ elim s₂ [ [] ↦ none | addr' ∷ s₃ ↦ apply_patches fuel dest mem' addr' s₃ ]
    ]
  ]
]

-- The remaining three sections go to pages of their own, end marks included.
pub move_rest : ℕ → ℕ → ℕ → Words → List ℕ → Option Words
move_rest rem_dest count tmp mem [] = if leb 3 count then some mem else none
move_rest rem_dest count tmp mem (w ∷ s) =
    let rest =
      move_rest rem_dest (if w == end_mark then count + 1 else count)
        (if w == end_mark then rem_dest + (count + 1) * 0x1000 else tmp + 4) (store mem tmp w) s in
    if leb 3 count then some mem else rest

pub patch_engine : ℕ → ℕ → ℕ → Words → List ℕ → Option Words
patch_engine fuel dest rem_dest mem [] = none
patch_engine fuel dest rem_dest mem (addr ∷ s) = elim (apply_patches fuel dest mem addr s) [
  | none ↦ none
  | some (mem', s') ↦ move_rest rem_dest 0 rem_dest mem' s'
]

-- A patch, and the area that holds a list of them.
pub record Patch : Type 0 where
  pub addr : ℕ
  pub words : List ℕ

abbrev pub first : List Patch → ℕ
first [] = end_mark
first (p ∷ ps) = p.addr

abbrev pub body : List Patch → List ℕ → List ℕ
body [] rest = rest
body (p ∷ ps) rest = length p.words ∷ (p.words ++ (first ps ∷ body ps rest))

abbrev pub encode : List Patch → List ℕ → List ℕ
encode ps rest = first ps ∷ body ps rest

-- Words stored one behind the other.
abbrev pub write_list : Words → ℕ → List ℕ → Words
write_list mem a [] = mem
write_list mem a (w ∷ ws) = write_list (store mem a w) (a + 4) ws

abbrev pub apply_all : ℕ → Words → List Patch → Words
apply_all dest mem [] = mem
apply_all dest mem (p ∷ ps) = apply_all dest (write_list mem (dest + p.addr) p.words) ps

-- No word is the end mark.
abbrev pub Plain : List ℕ → Type 0
Plain [] = Unit
Plain (w ∷ ws) = (w ≢ end_mark) × Plain ws

abbrev pub AllPlain : List Patch → Type 0
AllPlain [] = Unit
AllPlain (p ∷ ps) = (p.addr ≢ end_mark) × AllPlain ps

write_words_lem :
    (mem : Words) (a : ℕ) (ws rest : List ℕ)
    → write_words mem a (length ws) (ws ++ rest) ≡ some (write_list mem a ws, rest)
unfolding write_words
write_words_lem mem a [] rest = refl
write_words_lem mem a (w ∷ ws) rest = write_words_lem (store mem a w) (a + 4) ws rest

apply_patches-encode :
    (fuel dest : ℕ) (mem : Words) (ps : List Patch) (rest : List ℕ)
    → length ps < fuel
    → AllPlain ps
    → apply_patches fuel dest mem (first ps) (body ps rest) ≡ some (apply_all dest mem ps, rest)
unfolding apply_patches
apply_patches-encode zero dest mem ps rest enough plain = absurd (omega arith)
apply_patches-encode (suc fuel) dest mem [] rest enough plain = refl
apply_patches-encode (suc fuel) dest mem (p ∷ ps) rest enough plain =
    let other : (p.addr == end_mark) ≡ false = ground (arith, plain.0) in
    rw
      (
        other,
        write_words_lem mem (dest + p.addr) p.words (first ps ∷ body ps rest),
        apply_patches-encode fuel dest (write_list mem (dest + p.addr) p.words) ps rest
            (omega arith) plain.1,
        apply_patches,
      )
      refl

-- A section behind its first words: the words of the section, its end mark, and the rest.
move_rest_section :
    (rem_dest count tmp : ℕ) (mem : Words) (ws rest : List ℕ)
    → count < 3
    → Plain ws
    → move_rest rem_dest count tmp mem (ws ++ end_mark ∷ rest)
      ≡ move_rest rem_dest
          (count + 1)
          (rem_dest + (count + 1) * 0x1000)
          (write_list mem tmp (ws ++ end_mark ∷ []))
          rest
unfolding move_rest
move_rest_section rem_dest count tmp mem [] rest lt plain = ground arith
move_rest_section rem_dest count tmp mem (w ∷ ws) rest lt plain =
    ground (arith, move_rest_section rem_dest count (tmp + 4) (store mem tmp w) ws rest lt plain.1)

move_rest_end :
    (rem_dest tmp : ℕ) (mem : Words) (rest : List ℕ) → move_rest rem_dest 3 tmp mem rest ≡ some mem
unfolding move_rest
move_rest_end rem_dest tmp mem [] = refl
move_rest_end rem_dest tmp mem (w ∷ rest) = refl

abbrev pub section_words : List ℕ → List ℕ
section_words ws = ws ++ end_mark ∷ []

-- On a patch area in its format, `patchEngine` stores the words of each patch of the first section
-- at its own address, in order, and moves the three sections behind, each with its end mark, to
-- the three pages of the second area; it reads nothing behind them. The fuel has to exceed the
-- number of patches; an address or a word of the last three sections is not the end mark.
pub patch_engine-encode :
    (fuel dest rem_dest : ℕ) (mem : Words) (ps : List Patch) (one two three rest : List ℕ)
    → length ps < fuel
    → AllPlain ps
    → Plain one
    → Plain two
    → Plain three
    → patch_engine fuel dest rem_dest mem
        (encode ps (one ++ end_mark ∷ (two ++ end_mark ∷ (three ++ end_mark ∷ rest))))
      ≡ some (
          write_list
            (write_list
              (write_list (apply_all dest mem ps) rem_dest (section_words one))
              (rem_dest + 0x1000)
              (section_words two))
            (rem_dest + 0x2000)
            (section_words three))
unfolding patch_engine
patch_engine-encode fuel dest rem_dest mem ps one two three rest enough plain p₁ p₂ p₃ =
    rw
      (
        apply_patches-encode fuel dest mem ps _ enough plain,
        move_rest_section rem_dest 0 rem_dest (apply_all dest mem ps) one _ (omega arith) p₁,
        move_rest_section rem_dest 1 (rem_dest + 0x1000) _ two _ (omega arith) p₂,
        move_rest_section rem_dest 2 (rem_dest + 0x2000) _ three rest (omega arith) p₃,
        patch_engine,
      )
      (move_rest_end rem_dest _ _ rest)
