-- ===== src/Tests/Inflate.antt =====
-- The theorems on xexInflate.c at a chain of two blocks and a decoder that copies.
use xe_build.Base.{ℕ, ◌≤◌, ◌<◌, ◌≡◌, refl, true, some, Option, List, [], ◌∷◌, arith, replicate}
use xe_build.Bytes.{byte_at}
use xe_build.Svod.Disc.{Memory}
use xe_build.Xex.Inflate.{
  Decoder, ask, put, stop, Unpacked, list_memory, rebuf_in_data, do_xex_unpack, unpack_xex_data,
}
use xe_build.Xex.Inflate.Chain.{
  Block, chain_bytes, part_bytes, joined, stream, Stands, list_memory-Stands,
}
use xe_build.Xex.Inflate.Stream.{rebuf_in_data_lem}
use xe_build.Xex.Inflate.Confined.{unpack_xex_data_lem}

abbrev blocks : List Block
blocks =
    (record { hash = replicate 20 7; parts = (1 ∷ 2 ∷ 3 ∷ []) ∷ (4 ∷ []) ∷ []; tail = 9 ∷ [] })
    ∷ (record { hash = replicate 20 8; parts = (5 ∷ 6 ∷ []) ∷ []; tail = [] })
    ∷ []

abbrev chain_memory : Memory
chain_memory = list_memory (chain_bytes blocks)

chain-Stands : Stands chain_memory 0 (chain_bytes blocks)
chain-Stands = list_memory-Stands (chain_bytes blocks)

rebuf_in_data_lem_example :
    (rebuf_in_data (λ n. true) 20 chain_memory 65 35 ≡ some (some (1 ∷ 2 ∷ 3 ∷ 4 ∷ 5 ∷ 6 ∷ [])))
    × (6 ≤ 65)
unfolding chain_bytes part_bytes stream joined
rebuf_in_data_lem_example =
    rebuf_in_data_lem (λ n. true) 20 chain_memory blocks chain-Stands
      (
        (refl, ((omega arith, omega arith), ((omega arith, omega arith), tt))),
        ((refl, ((omega arith, omega arith), tt)), tt),
      )
      (omega arith) refl (omega arith)

abbrev copier : ℕ → ℕ → ℕ → Option Decoder
copier bits size len = some (
    ask 4 (λ n xs.
      put (list_memory xs) n (λ m. ask 100 (λ n' xs'. put (list_memory xs') n' (λ m'. stop 0)))))

unpack_xex_data_lem_example :
    (u : Unpacked) × (unpack_xex_data (λ n. true) copier 20 chain_memory 65 (λ k. 0) 5 0x8000 35
      ≡ some u)
    × (u.ret ≡ true)
    × ((input : Memory)
        → ((k : ℕ) → k < 6 → byte_at (1 ∷ 2 ∷ 3 ∷ 4 ∷ 5 ∷ 6 ∷ []) k ≡ input k)
        → u ≡ do_xex_unpack (λ n. true) copier input 6 (λ k. 0) 5 0x8000)
    × ((k : ℕ) → 5 ≤ k → u.out k ≡ 0)
unfolding chain_bytes part_bytes stream joined
unpack_xex_data_lem_example =
    unpack_xex_data_lem (λ n. true) copier 20 chain_memory (λ k. 0) blocks 5 0x8000 chain-Stands
      (
        (refl, ((omega arith, omega arith), ((omega arith, omega arith), tt))),
        ((refl, ((omega arith, omega arith), tt)), tt),
      )
      (omega arith) (omega arith) refl (omega arith)
