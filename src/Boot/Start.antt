-- ===== src/Boot/Start.antt =====
-- `start` of reboot_core/main.c: which system is booted, and the accesses in their order.
use mathlib.Core.Option
use xe_build.Base.{
  ℕ, ◌≡◌, ◌≢◌, ◌↔◌, ◌⊎◌, inl, inr, bit_and, Bool, true, false, Option, some, List, [], ◌∷◌, ◌++◌,
  arith, ap, not, ◌&&◌, ◌||◌, ◌==◌, ◌!=◌, if◌then◌else◌, Bool-cases,
}
use xe_build.Boot.Smc.{Poll, get_smc}

-- The bytes of `options` that the code looks at, as they stand in the flash.
pub record Options : Type 0 where
  pub dual : ℕ
  pub flags : ℕ
  pub reason2 : ℕ
  pub reason1 : ℕ

abbrev pub set_cygnos_uart : ℕ
set_cygnos_uart = 1

abbrev pub set_nodvd : ℕ
set_nodvd = 2

abbrev pub set_usepwrrsn : ℕ
set_usepwrrsn = 4

abbrev pub has_flag : Options → ℕ → Bool
has_flag o flag = bit_and o.flags flag != 0

-- `if(options[OPTS_PWRR1] == 0) options[OPTS_PWRR1] = PWR_REAS_EJECT`.
pub with_default : Options → Options
with_default o = if o.reason1 == 0 then record o { reason1 = 0x12 } else o

pub record Choice : Type 0 where
  pub bootxell : Bool
  pub dualboot : Bool

-- The choice by the power-up reason.
pub choose_by_reason : Options → ℕ → Choice
choose_by_reason o boot = record {
  bootxell = boot == o.reason1 || (o.reason2 != 0 && o.reason2 == boot);
  dualboot = o.dual != 0 && boot == o.dual;
}

-- The choice by the state of the tray.
pub choose_by_tray : Options → ℕ → Choice
choose_by_tray o boot = record {
  bootxell = if has_flag o set_nodvd then boot == 0x60 else boot != 0x62;
  dualboot = false;
}

-- What `start` does to the machine, in order.
pub data Action : Type 0 where
  clear_bss place_vectors release_cores wait_cores load_options set_uart : Action
  send_command : ℕ → Action
  say_switch say_banner say_xell say_firmware say_alternative : Action
  reset_usb copy_xell hold_secondary copy_1bl run_patch_engine copy_fuses : Action

pub record Boot : Type 0 where
  pub ret : ℕ
  pub actions : List Action

-- The command that is sent to the SMC.
abbrev pub command_of : Options → ℕ
command_of o = if has_flag o set_usepwrrsn then 0x1 else 0xa

pub finish_boot : Choice → List Action × ℕ
finish_boot c =
    if c.bootxell then (say_xell ∷ reset_usb ∷ copy_xell ∷ hold_secondary ∷ [], 1) else (
      (if c.dualboot then say_alternative else say_firmware)
          ∷ copy_1bl
          ∷ run_patch_engine
          ∷ copy_fuses
          ∷ [],
      0,
    )

pub choose : Options → ℕ → Choice
choose o boot = if has_flag o set_usepwrrsn then choose_by_reason o boot else choose_by_tray o boot

-- Everything once the SMC has answered `boot`.
pub start_with : Options → ℕ → Boot
start_with o boot =
    let c = choose o boot in
    let (last, ret) = finish_boot c in
    record {
      ret = ret;
      actions =
          (clear_bss ∷ place_vectors ∷ release_cores ∷ wait_cores ∷ load_options ∷ [])
          ++ ((if has_flag o set_cygnos_uart then set_uart ∷ [] else [])
              ++ (send_command (command_of o)
                  ∷ ((if c.dualboot then say_switch ∷ [] else []) ++ (say_banner ∷ last))));
    }

-- `none` where the SMC does not answer.
pub start : Options → List Poll → Option Boot
start flash polls =
    let o = with_default flash in Option.map (start_with o) (get_smc (command_of o) polls)

-- Whether the patch engine is run, and whether XeLL is copied and the other cores are held.
abbrev pub patches : List Action → Bool
patches [] = false
patches (run_patch_engine ∷ rest) = true
patches (a ∷ rest) = patches rest

abbrev pub copies_xell : List Action → Bool
copies_xell [] = false
copies_xell (copy_xell ∷ hold_secondary ∷ rest) = true
copies_xell (a ∷ rest) = copies_xell rest

-- When XeLL is to be booted, in words of the options in the flash.
abbrev pub reason_of : Options → ℕ
reason_of o = if o.reason1 == 0 then 0x12 else o.reason1

abbrev pub BootsXell : Options → ℕ → Type 0
BootsXell o boot =
    ((bit_and o.flags 4 ≢ 0) × ((boot ≡ reason_of o) ⊎ ((o.reason2 ≢ 0) × (boot ≡ o.reason2))))
    ⊎ ((bit_and o.flags 4 ≡ 0)
        × (((bit_and o.flags 2 ≢ 0) × (boot ≡ 0x60)) ⊎ ((bit_and o.flags 2 ≡ 0) × (boot ≢ 0x62))))

with_default_flags : (o : Options) → (with_default o).flags ≡ o.flags
unfolding with_default
with_default_flags o = ground arith

choose_lem :
    (o : Options) (boot : ℕ) → ((choose (with_default o) boot).bootxell ≡ true) ↔ BootsXell o boot
unfolding choose choose_by_reason choose_by_tray with_default
choose_lem o boot = ((λ e. ground arith), (λ e. ground arith))

start_with_lem :
    (o : Options) (boot : ℕ)
    → let b = start_with o boot in
      let x = (choose o boot).bootxell in
      (b.ret ≡ (if x then 1 else 0)) × (patches b.actions ≡ not x) × (copies_xell b.actions ≡ x)
unfolding start_with finish_boot
start_with_lem o boot = elim (Bool-cases (choose o boot).bootxell) [
  | inl x ↦ ground (arith, x)
  | inr x ↦ ground (arith, x)
]

-- Where the SMC answers `boot`, `start` returns 1, copies XeLL and runs no patch exactly for the
-- power-up reasons and tray states that select XeLL; otherwise it returns 0, runs the patch engine
-- and copies no XeLL. An option byte of 0 for the first reason stands for the eject button.
pub start_lem :
    (o : Options) (polls : List Poll) (boot : ℕ)
    → get_smc (command_of o) polls ≡ some boot
    → (b : Boot) × (start o polls ≡ some b)
      × ((BootsXell o boot
            × (b.ret ≡ 1)
            × (copies_xell b.actions ≡ true)
            × (patches b.actions ≡ false))
          ⊎ (¬ BootsXell o boot
              × (b.ret ≡ 0)
              × (copies_xell b.actions ≡ false)
              × (patches b.actions ≡ true)))
unfolding start
start_lem o polls boot h = (
  start_with (with_default o) boot,
  simp with_default_flags (ap (Option.map (start_with (with_default o))) h),
  elim (Bool-cases (choose (with_default o) boot).bootxell) [
    | inl x ↦
        let b = start_with_lem (with_default o) boot in
        inl (
          (choose_lem o boot).0 x,
          ground (arith, x, b),
          ground (arith, x, b),
          ground (arith, x, b),
        )
    | inr x ↦
        let b = start_with_lem (with_default o) boot in
        inr (
          (λ is. ground (arith, x, (choose_lem o boot).1 is)),
          ground (arith, x, b),
          ground (arith, x, b),
          ground (arith, x, b),
        )
  ],
)
