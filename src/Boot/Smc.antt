-- ===== src/Boot/Smc.antt =====
-- `smc_send`, `smc_receive` and `getSmc` of reboot_core/main.c. The waiting for the transmit status
-- is not modelled, and a list of polls that ends stands for a controller that is not yet done.
use xe_build.Base.{
  ℕ, ◌≡◌, ◌≢◌, Option, none, some, List, [], ◌∷◌, ◌++◌, arith, get_or, replicate, low_bits, ◌==◌,
  if◌then◌else◌,
}

-- What one look at the receive status finds: nothing, or a message of 16 bytes.
pub data Poll : Type 0 where
  idle : Poll
  reply : List ℕ → Poll

-- The message that `getSmc` sends.
pub smc_message : ℕ → List ℕ
smc_message command = command ∷ replicate 15 0

-- `rmsg` behind `_memset` and `smc_receive`.
unfoldable pub smc_receive : Poll → List ℕ
smc_receive idle = replicate 16 0
smc_receive (reply msg) = msg

-- `while(rmsg[0] != command)`.
unfoldable pub wait_reply : ℕ → List ℕ → List Poll → Option ℕ
wait_reply command rmsg [] =
    if get_or rmsg 0 0 == command then some (low_bits (get_or rmsg 1 0) 8) else none
wait_reply command rmsg (p ∷ ps) =
    let rest = wait_reply command (smc_receive p) ps in
    if get_or rmsg 0 0 == command then some (low_bits (get_or rmsg 1 0) 8) else rest

unfoldable pub get_smc : ℕ → List Poll → Option ℕ
get_smc command polls = wait_reply command (replicate 16 0) polls

-- A poll that does not answer the command.
abbrev pub Unanswered : ℕ → Poll → Type 0
Unanswered command idle = Unit
Unanswered command (reply msg) = get_or msg 0 0 ≢ command

abbrev pub AllUnanswered : ℕ → List Poll → Type 0
AllUnanswered command [] = Unit
AllUnanswered command (p ∷ ps) = Unanswered command p × AllUnanswered command ps

receive_other :
    (command : ℕ) (p : Poll)
    → command ≢ 0
    → Unanswered command p
    → get_or (smc_receive p) 0 0 ≢ command
unfolding smc_receive
receive_other command idle ne h e = ground arith
receive_other command (reply msg) ne h e = h e

wait_reply_lem :
    (command : ℕ) (rmsg : List ℕ) (before after : List Poll) (msg : List ℕ)
    → command ≢ 0
    → get_or rmsg 0 0 ≢ command
    → AllUnanswered command before
    → get_or msg 0 0 ≡ command
    → wait_reply command rmsg (before ++ reply msg ∷ after) ≡ some (low_bits (get_or msg 1 0) 8)
unfolding wait_reply smc_receive
wait_reply_lem command rmsg [] [] msg ne other h e = ground arith
wait_reply_lem command rmsg [] (a ∷ after) msg ne other h e = ground arith
wait_reply_lem command rmsg (p ∷ before) after msg ne other h e = ground (
  arith,
  wait_reply_lem command (smc_receive p) before after msg ne (receive_other command p ne h.0) h.1 e,
)

wait_reply-none :
    (command : ℕ) (rmsg : List ℕ) (polls : List Poll)
    → command ≢ 0
    → get_or rmsg 0 0 ≢ command
    → AllUnanswered command polls
    → wait_reply command rmsg polls ≡ none
unfolding wait_reply
wait_reply-none command rmsg [] ne other h = ground arith
wait_reply-none command rmsg (p ∷ ps) ne other h =
    ground
      (arith, wait_reply-none command (smc_receive p) ps ne (receive_other command p ne h.0) h.1)

-- For a command other than 0, `getSmc` passes over every poll that does not answer the command and
-- returns the second byte of the first message that does; it does not return before that.
pub get_smc_lem :
    (command : ℕ) (before after : List Poll) (msg : List ℕ)
    → command ≢ 0
    → AllUnanswered command before
    → get_or msg 0 0 ≡ command
    → (get_smc command (before ++ reply msg ∷ after) ≡ some (low_bits (get_or msg 1 0) 8))
      × (get_smc command before ≡ none)
unfolding get_smc
get_smc_lem command before after msg ne h e = (
  wait_reply_lem command (replicate 16 0) before after msg ne (λ z. ne (omega (arith, z))) h e,
  wait_reply-none command (replicate 16 0) before ne (λ z. ne (omega (arith, z))) h,
)
