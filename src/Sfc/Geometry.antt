-- ===== src/Sfc/Geometry.antt =====
-- The geometry that `SFC_init` chooses is consistent.
use native.Mathlib.Nat.{pow-suc, one-le-pow, pow-le-pow_right, mul_comm}
use xe_build.Base.{
  ℕ, zero, suc, ◌+◌, ◌-◌, ◌*◌, ◌%◌, ◌^◌, ◌≤◌, ◌<◌, ◌≡◌, ◌⊎◌, ◌↔◌, inl, inr, refl, arith, ◌≢◌, ◌∙◌,
  Bool-cases, ◌==◌, if◌then◌else◌,
}
use xe_build.Sfc.{
  Sfc, Init, chosen, unsupported, controller, layout, size_shift, defaults, small_blocks,
  large_blocks, original, panda, derived, conclude, sfc_init,
}

pow-add : (a b : ℕ) → 2 ^ (a + b) ≡ 2 ^ a * 2 ^ b
pow-add zero b = let e : 0 + b ≡ b = omega arith in rw e (omega arith)
pow-add (suc a) b =
    let e : suc a + b ≡ suc (a + b) = omega arith in
    let ih : 2 ^ (a + b) ≡ 2 ^ a * 2 ^ b = pow-add a b in rw (e, pow-suc, pow-suc, ih) (omega arith)

-- A size that the register can name and that fits a word is a number of 8 MB units, 256 at most.
size_units : (n : ℕ) → 23 ≤ n → n < 32 → (u : ℕ) × (2 ^ n ≡ u * 2 ^ 23) × (0 < u) × (u ≤ 256)
size_units n lo hi =
    let e : 23 + (n - 23) ≡ n = omega arith in
    let split : 2 ^ (23 + (n - 23)) ≡ 2 ^ 23 * 2 ^ (n - 23) = pow-add 23 (n - 23) in
    let bound : 2 ^ (n - 23) ≤ 2 ^ 8 =
      pow-le-pow_right {n = 2} (omega arith) {i = n - 23} {j = 8} (omega arith) in
    (
      2 ^ (n - 23),
      rw e at split ∙ mul_comm (2 ^ 23) (2 ^ (n - 23)),
      one-le-pow (n - 23) 2 (omega arith),
      bound,
    )

-- The parts of a geometry fit together.
pub record IsGeometry (s : Sfc) : Type 0 where
  pub ready : s.initialized ≡ 1
  pub bytes : s.size_blocks * s.block_sz ≡ s.size_bytes
  pub pages :
      (s.pages_in_block * s.page_sz ≡ s.block_sz) × (s.size_pages * s.page_sz ≡ s.size_bytes)
  pub physical :
      (s.block_sz_phys ≡ s.pages_in_block * (s.page_sz + s.meta_sz))
      × (s.size_bytes_phys ≡ s.size_pages * (s.page_sz + s.meta_sz))
  pub config : s.addr_config + s.len_config ≡ s.size_usable_fs * s.block_sz
  pub megabytes : s.size_mb * 2 ^ 20 ≡ s.size_bytes

large_17-IsGeometry :
    (config : ℕ) (s : Sfc)
    → size_shift config < 32
    → IsGeometry (derived (large_blocks config 17 0x1e0 (defaults s)))
unfolding derived large_blocks defaults
large_17-IsGeometry config s small =
    let (u, eq, pos, le) = size_units (size_shift config) (omega arith) small in
    omega (arith, eq, le)

large_18-IsGeometry :
    (config : ℕ) (s : Sfc)
    → size_shift config < 32
    → IsGeometry (derived (large_blocks config 18 0xf0 (defaults s)))
unfolding derived large_blocks defaults
large_18-IsGeometry config s small =
    let (u, eq, pos, le) = size_units (size_shift config) (omega arith) small in
    omega (arith, eq, le)

small-IsGeometry :
    (s : Sfc) (blocks usable meta : ℕ)
    → (blocks ≤ 0x1000) × (blocks % 0x400 ≡ 0) × (4 ≤ usable) × (usable ≤ 0x1000)
    → IsGeometry (
        derived (
          small_blocks blocks usable
            (record (defaults s) { meta_type = meta; blocks_per_lg_block = 8 })))
unfolding derived small_blocks defaults
small-IsGeometry s blocks usable meta h = omega (arith, h)

-- What the switch may leave.
abbrev SwitchDone : Init → Type 0
SwitchDone (chosen s) = IsGeometry (derived s)
SwitchDone (unsupported code s) = (code ≢ 0) × (s.initialized ≡ 0)

original-SwitchDone : (config : ℕ) (s : Sfc) → SwitchDone (original config (defaults s))
unfolding original defaults
original-SwitchDone config s = elim (Bool-cases (layout config == 0)) [
  | inl a ↦ rw a ((λ e. omega (arith, e)), refl)
  | inr a ↦ elim (Bool-cases (layout config == 1)) [
    | inl b ↦ rw (a, b) (small-IsGeometry s 0x400 0x3e0 0 (omega arith))
    | inr b ↦ elim (Bool-cases (layout config == 2)) [
      | inl c ↦ rw (a, b, c) (small-IsGeometry s 0x800 0x7c0 0 (omega arith))
      | inr c ↦ rw (a, b, c) (small-IsGeometry s 0x1000 0xf80 0 (omega arith))
    ]
  ]
]

panda-SwitchDone :
    (config : ℕ) (s : Sfc)
    → (1 < layout config → size_shift config < 32)
    → SwitchDone (panda config (defaults s))
unfolding panda defaults
panda-SwitchDone config s small = elim (Bool-cases (controller config == 1)) [
  | inl k ↦ elim (Bool-cases (layout config == 0)) [
    | inl a ↦ rw (a, k) ((λ e. omega (arith, e)), refl)
    | inr a ↦ elim (Bool-cases (layout config == 1)) [
      | inl b ↦ rw (a, b, k) (small-IsGeometry s 0x400 0x3e0 1 (omega arith))
      | inr b ↦ elim (Bool-cases (layout config == 2)) [
        | inl c ↦ rw (a, b, c) (large_17-IsGeometry config s (small (ground (arith, a, b))))
        | inr c ↦ rw (a, b, c) (large_18-IsGeometry config s (small (ground (arith, a, b))))
      ]
    ]
  ]
  | inr k ↦ elim (Bool-cases (layout config == 0)) [
    | inl a ↦ rw (a, k) (small-IsGeometry s 0x400 0x3e0 1 (omega arith))
    | inr a ↦ elim (Bool-cases (layout config == 1)) [
      | inl b ↦ rw (a, b, k) (small-IsGeometry s 0x1000 0xf80 1 (omega arith))
      | inr b ↦ elim (Bool-cases (layout config == 2)) [
        | inl c ↦ rw (a, b, c) (large_17-IsGeometry config s (small (ground (arith, a, b))))
        | inr c ↦ rw (a, b, c) (large_18-IsGeometry config s (small (ground (arith, a, b))))
      ]
    ]
  ]
]

conclude_lem :
    (i : Init)
    → SwitchDone i
    → ((conclude i).ret ≡ 0 → IsGeometry (conclude i).sfc)
      × ((conclude i).ret ≢ 0 → (conclude i).sfc.initialized ≡ 0)
unfolding conclude
conclude_lem (chosen s) h = ((λ e. h), (λ ne. absurd (ne refl)))
conclude_lem (unsupported code s) h = ((λ e. absurd (h.0 e)), (λ ne. h.1))

switch-SwitchDone :
    (config : ℕ) (s : Sfc)
    → (controller config ≢ 0 → 1 < layout config → size_shift config < 32)
    → SwitchDone (
        if controller config == 0
        then original config (defaults s)
        else if controller config == 3
        then unsupported 3 (defaults s)
        else panda config (defaults s))
switch-SwitchDone config s small = elim (Bool-cases (controller config == 0)) [
  | inl a ↦ rw a (original-SwitchDone config s)
  | inr a ↦ elim (Bool-cases (controller config == 3)) [
    | inl b ↦ rw (a, b) ((λ e. omega (arith, e)), unfold defaults in refl)
    | inr b ↦ rw (a, b) (panda-SwitchDone config s (small (ground (arith, a))))
  ]
]

-- On success the parts of the geometry fit together; for a large-block layout of the newer
-- controllers the size in the register has to fit a word of 32 bits. On any other return code the
-- controller is not marked as initialised. The code is 0 exactly for the layouts that the switch
-- supports.
pub sfc_init-IsGeometry :
    (config : ℕ) (s : Sfc)
    → (controller config ≢ 0 → 1 < layout config → size_shift config < 32)
    → ((sfc_init config s).ret ≡ 0 → IsGeometry (sfc_init config s).sfc)
      × ((sfc_init config s).ret ≢ 0 → (sfc_init config s).sfc.initialized ≡ 0)
      × (((sfc_init config s).ret ≡ 0)
          ↔ ((controller config ≢ 3) × ((layout config ≢ 0) ⊎ (controller config ≡ 2))))
unfolding sfc_init
sfc_init-IsGeometry config s small =
    let parts = conclude_lem _ (switch-SwitchDone config s small) in
    (parts.0, parts.1, ((λ e. ground arith), (λ e. ground arith)))
