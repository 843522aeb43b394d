-- ===== src/Boot/Vectors.antt =====
-- `get_online_processors`, `place_jump` and the loop of `start` over the interrupt vectors.
use xe_build.Base.{
  All, ℕ, ◌+◌, ◌-◌, ◌*◌, ◌^◌, ◌≤◌, ◌<◌, bit_or, ◌≡◌, ◌≢◌, ◌↔◌, ◌⊎◌, ◌∙◌, refl, List, [], ◌∷◌, arith,
  low_bits, ◌>>>◌, ◌!=◌, if◌then◌else◌,
}
use xe_build.Base.Bits.{bit_or_apart}
use xe_build.Boot.{Words, store}

-- The loop of `get_online_processors` at processor `i`.
pub online_from : List ℕ → ℕ → ℕ → ℕ
online_from [] i res = res
online_from (p ∷ ps) i res = online_from ps (i + 1) (if p != 0 then bit_or res (2 ^ i) else res)

pub get_online_processors : List ℕ → ℕ
get_online_processors processors = online_from processors 0 0

-- The words of `place_jump` that hold parts of the target.
pub load_high : ℕ → ℕ
load_high target = bit_or 0x3c600000 (low_bits (target >>> 48) 16)

pub load_mid : ℕ → ℕ
load_mid target = bit_or 0x64630000 (low_bits (target >>> 16) 16)

pub load_low : ℕ → ℕ
load_low target = bit_or 0x60630000 (low_bits target 16)

-- `place_jump`: six words before the vector, and a branch back to them at it.
unfoldable pub place_jump : ℕ → ℕ → Words → Words
place_jump addr target mem =
    store
      (store
        (store
          (store
            (store (store (store mem (addr - 0x18) (load_high target)) (addr - 0x18 + 4) 0x786307c6)
              (addr - 0x18 + 8) (load_mid target))
            (addr - 0x18 + 0xc) (load_low target))
          (addr - 0x18 + 0x10) 0x7c6803a6)
        (addr - 0x18 + 0x14) 0x4e800021)
      addr 0x4bffffe8

abbrev pub exc : List ℕ
exc =
    0x100 ∷ 0x200 ∷ 0x300 ∷ 0x380 ∷ 0x400 ∷ 0x480 ∷ 0x500 ∷ 0x600 ∷ 0x700 ∷ 0x800 ∷ 0x900 ∷ 0x980
    ∷ 0xc00 ∷ 0xd00 ∷ 0xf00 ∷ 0xf20 ∷ 0x1300 ∷ 0x1600 ∷ 0x1700 ∷ 0x1800 ∷ []

-- `for (i=0; i<20; ++i) place_jump(exc[i], _start)`.
pub place_jumps : List ℕ → ℕ → Words → Words
place_jumps [] target mem = mem
place_jumps (v ∷ vs) target mem = place_jumps vs target (place_jump v target mem)

-- The code of a vector: where its branch goes to, and the address that it loads.
abbrev pub IsInstalled : Words → ℕ → ℕ → Type 0
IsInstalled mem target v =
    (mem (v - 0x18) ≡ load_high target)
    × (mem (v - 0x18 + 4) ≡ 0x786307c6)
    × (mem (v - 0x18 + 8) ≡ load_mid target)
    × (mem (v - 0x18 + 0xc) ≡ load_low target)
    × (mem (v - 0x18 + 0x10) ≡ 0x7c6803a6)
    × (mem (v - 0x18 + 0x14) ≡ 0x4e800021)
    × (mem v ≡ 0x4bffffe8)

place_jump_self :
    (v target : ℕ) (mem : Words) → 0x18 ≤ v → IsInstalled (place_jump v target mem) target v
unfolding place_jump
place_jump_self v target mem h = (
  ground arith,
  ground arith,
  ground arith,
  ground arith,
  ground arith,
  ground arith,
  ground arith,
)

place_jump_frame :
    (v target a : ℕ) (mem : Words)
    → 0x18 ≤ v
    → (a + 0x18 < v) ⊎ (v < a)
    → place_jump v target mem a ≡ mem a
unfolding place_jump
place_jump_frame v target a mem h out = ground arith

-- The code of one vector stays whole while later ones are placed behind it.
place_jumps_keep :
    (vs : List ℕ) (v target : ℕ) (mem : Words)
    → 0x18 ≤ v
    → All (λ u. v + 0x18 < u) vs
    → IsInstalled mem target v
    → IsInstalled (place_jumps vs target mem) target v
unfolding place_jumps
place_jumps_keep [] v target mem h far inst = inst
place_jumps_keep (u ∷ us) v target mem h far inst =
    place_jumps_keep us v target (place_jump u target mem) h far.1 (
      place_jump_frame u target (v - 0x18) mem (omega arith) (ground arith) ∙ inst.0,
      place_jump_frame u target (v - 0x18 + 4) mem (omega arith) (ground arith) ∙ inst.1,
      place_jump_frame u target (v - 0x18 + 8) mem (omega arith) (ground arith) ∙ inst.2,
      place_jump_frame u target (v - 0x18 + 0xc) mem (omega arith) (ground arith) ∙ inst.3,
      place_jump_frame u target (v - 0x18 + 0x10) mem (omega arith) (ground arith) ∙ inst.4,
      place_jump_frame u target (v - 0x18 + 0x14) mem (omega arith) (ground arith) ∙ inst.5,
      place_jump_frame u target v mem (omega arith) (ground arith) ∙ inst.6,
    )

-- Vectors in rising order with room for six words between them.
abbrev pub Spaced : List ℕ → Type 0
Spaced [] = Unit
Spaced (v ∷ vs) = (0x18 ≤ v) × All (λ u. v + 0x18 < u) vs × Spaced vs

place_jumps-IsInstalled :
    (vs : List ℕ) (target : ℕ) (mem : Words)
    → Spaced vs
    → All (IsInstalled (place_jumps vs target mem) target) vs
unfolding place_jumps
place_jumps-IsInstalled [] target mem h = tt
place_jumps-IsInstalled (v ∷ vs) target mem h = (
  place_jumps_keep vs v target (place_jump v target mem) h.0 h.1 (place_jump_self v target mem h.0),
  place_jumps-IsInstalled vs target (place_jump v target mem) h.2,
)

exc-Spaced : Spaced exc
exc-Spaced = omega arith

-- Behind the loop of `start` all twenty interrupt vectors carry their whole code, none of them
-- overwritten by another, and the immediates of that code give the target back for every target
-- whose bits 32 to 47 are clear.
pub vectors-IsInstalled :
    (target : ℕ) (mem : Words)
    → target < 2 ^ 64
    → low_bits (target >>> 32) 16 ≡ 0
    → All (IsInstalled (place_jumps exc target mem) target) exc
      × (low_bits (load_high target) 16 * 2 ^ 48
            + low_bits (load_mid target) 16 * 2 ^ 16
            + low_bits (load_low target) 16
          ≡ target)
unfolding load_high load_mid load_low
vectors-IsInstalled target mem small clear = (
  place_jumps-IsInstalled exc target mem exc-Spaced,
  omega (
    arith,
    bit_or_apart 16 0x3c600000 (low_bits (target >>> 48) 16) refl (omega arith),
    bit_or_apart 16 0x64630000 (low_bits (target >>> 16) 16) refl (omega arith),
    bit_or_apart 16 0x60630000 (low_bits target 16) refl (omega arith),
  ),
)

-- The mask of six processors is 0x3F exactly when each of them has reported.
pub get_online_processors_iff :
    (a b c d e f : ℕ)
    → (get_online_processors (a ∷ b ∷ c ∷ d ∷ e ∷ f ∷ []) ≡ 0x3f)
      ↔ ((a ≢ 0) × (b ≢ 0) × (c ≢ 0) × (d ≢ 0) × (e ≢ 0) × (f ≢ 0))
unfolding get_online_processors online_from
get_online_processors_iff a b c d e f = (λ h. ground arith, λ h. ground arith)
