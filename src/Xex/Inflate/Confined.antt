-- ===== src/Xex/Inflate/Confined.antt =====
-- What a decoder can do through the memory files, whatever it asks for.
use xe_build.Base.{
  ℕ, ◌+◌, ◌^◌, ◌≤◌, ◌<◌, ◌≡◌, refl, sym, ap, ◌∙◌, Bool, true, ◌&&◌, Option, none, some, List, [],
  length, arith, is_some, All, inl, inr, Bool-cases, ◌!=◌, if◌then◌else◌,
}
use xe_build.Bytes.{byte_at}
use xe_build.Svod.Disc.{Memory, slice}
use xe_build.Svod.Writer.Blocks.{slice_ext}
use xe_build.Xex.Inflate.{
  get_bit_size, MemFile, mem_open, is_negative, minus_one, mem_todo, Got, mem_read, mem_write,
  Decoder, ask, put, stop, run_decoder, Unpacked, do_xex_unpack, unpack_xex_data, list_memory,
  written,
}
use xe_build.Xex.Inflate.Files.{IsWithin, mem_todo_within, file, mem_read_within}
use xe_build.Xex.Inflate.Chain.{Block, chain_bytes, first_size, stream, IsBlock, Stands}
use xe_build.Xex.Inflate.Stream.{fuel_of, rebuf_in_data_lem}

-- `b` is `a` after writes within it.
pub record Wrote (a b : MemFile) : Type 0 where
  pub length_same : b.length ≡ a.length
  pub within : b.posn ≤ b.length
  pub outside : (k : ℕ) → a.length ≤ k → b.data_at k ≡ a.data_at k

mem_write-Wrote :
    (fh : MemFile) (buffer : Memory) (bytes : ℕ)
    → IsWithin fh
    → (b : MemFile) × ((mem_write (some fh) buffer bytes).file ≡ some b) × Wrote fh b
unfolding mem_write
mem_write-Wrote fh buffer bytes h = elim (Bool-cases (is_negative bytes)) [
  | inl e ↦ rw e (fh, refl, record { length_same = refl; within = h.1; outside = λ k le. refl })
  | inr e ↦
      let todo = mem_todo_within fh bytes h in
      rw e (
        _,
        refl,
        record {
          length_same = refl;
          within = omega (arith, todo, h.0);
          outside = λ k le. ground (arith, todo, le);
        },
      )
]

-- What a failed request leaves.
mem_read_negative :
    (fh : MemFile) (bytes : ℕ)
    → is_negative bytes ≡ true
    → mem_read (some fh) bytes ≡ record { file = some fh; ret = minus_one; bytes = [] }
unfolding mem_read
mem_read_negative fh bytes sign = rw sign refl

-- A run does not depend on what stands behind the end of its input.
run_decoder_same :
    (decoder : Decoder) (mem mem' : Memory) (len pos : ℕ) (o : Option MemFile)
    → IsWithin (file mem len pos)
    → ((k : ℕ) → k < len → mem k ≡ mem' k)
    → (run_decoder decoder (some (file mem len pos)) o).output
      ≡ (run_decoder decoder (some (file mem' len pos)) o).output
unfolding run_decoder
run_decoder_same (stop status) mem mem' len pos o h same = refl
run_decoder_same (put buffer bytes next) mem mem' len pos o h same =
    run_decoder_same (next (mem_write o buffer bytes).ret) mem mem' len pos
      (mem_write o buffer bytes).file h same
run_decoder_same (ask bytes next) mem mem' len pos o h same =
    let go : Got → Option MemFile = λ g. (run_decoder (next g.ret g.bytes) g.file o).output in
    elim (Bool-cases (is_negative bytes)) [
      | inl e ↦
          ap go (mem_read_negative (file mem len pos) bytes e)
          ∙ (run_decoder_same (next minus_one []) mem mem' len pos o h same
              ∙ sym (ap go (mem_read_negative (file mem' len pos) bytes e)))
      | inr e ↦
          let t = mem_todo (file mem len pos) bytes in
          let most = mem_todo_within (file mem len pos) bytes h in
          let part : slice mem pos t ≡ slice mem' pos t =
            slice_ext mem mem' pos pos t (λ k lt. same (pos + k) (omega (arith, lt, most))) in
          ap go (mem_read_within mem len pos bytes h e)
          ∙ (ap (λ xs. (run_decoder (next t xs) (some (file mem len (pos + t))) o).output) part
              ∙ (run_decoder_same (next t (slice mem' pos t)) mem mem' len (pos + t) o
                    (h.0, omega (arith, most)) same
                  ∙ sym (ap go (mem_read_within mem' len pos bytes h e))))
    ]

-- Nor does it write behind the end of its output.
run_decoder-Wrote :
    (decoder : Decoder) (i : Option MemFile) (fh : MemFile)
    → IsWithin fh
    → (b : MemFile) × ((run_decoder decoder i (some fh)).output ≡ some b) × Wrote fh b
unfolding run_decoder
run_decoder-Wrote (stop status) i fh h =
    (fh, refl, record { length_same = refl; within = h.1; outside = λ k le. refl })
run_decoder-Wrote (ask bytes next) i fh h =
    run_decoder-Wrote (next (mem_read i bytes).ret (mem_read i bytes).bytes) (mem_read i bytes).file
      fh h
run_decoder-Wrote (put buffer bytes next) i fh h =
    let (b, run, w) = mem_write-Wrote fh buffer bytes h in
    let step = (mem_write (some fh) buffer bytes).ret in
    let (c, run', w') =
      run_decoder-Wrote (next step) i b (omega (arith, w.length_same, h.0), w.within) in
    (
      c,
      ap (λ f. (run_decoder (next step) i f).output) run ∙ run',
      record {
        length_same = w'.length_same ∙ w.length_same;
        within = w'.within;
        outside = λ k le. w'.outside k (omega (arith, w.length_same, le)) ∙ w.outside k le;
      },
    )

-- Without an output file nothing is written.
run_decoder-none :
    (decoder : Decoder) (i : Option MemFile) → (run_decoder decoder i none).output ≡ none
unfolding run_decoder mem_write
run_decoder-none (stop status) i = refl
run_decoder-none (ask bytes next) i =
    run_decoder-none (next (mem_read i bytes).ret (mem_read i bytes).bytes) (mem_read i bytes).file
run_decoder-none (put buffer bytes next) i = run_decoder-none (next minus_one) i

-- The two files as `mem_open` gives them.
abbrev opened : Bool → Memory → ℕ → Option MemFile
opened room mem len = if len != 0 && room then some (file mem len 0) else none

opened_same :
    (decoder : Decoder) (room : Bool) (mem mem' : Memory) (len : ℕ) (o : Option MemFile)
    → len < 2 ^ 31
    → ((k : ℕ) → k < len → mem k ≡ mem' k)
    → (run_decoder decoder (opened room mem len) o).output
      ≡ (run_decoder decoder (opened room mem' len) o).output
opened_same decoder room mem mem' len o small same = elim (Bool-cases (len != 0 && room)) [
  | inl e ↦ rw e (run_decoder_same decoder mem mem' len 0 o (small, omega arith) same)
  | inr e ↦ rw e refl
]

opened_outside :
    (decoder : Decoder) (room : Bool) (i : Option MemFile) (mem : Memory) (len k : ℕ)
    → len < 2 ^ 31
    → len ≤ k
    → written mem (run_decoder decoder i (opened room mem len)).output k ≡ mem k
opened_outside decoder room i mem len k small le = elim (Bool-cases (len != 0 && room)) [
  | inl e ↦
      let (b, run, w) = run_decoder-Wrote decoder i (file mem len 0) (small, omega arith) in
      rw (e, run) (w.outside k le)
  | inr e ↦ rw (e, run_decoder-none decoder i) refl
]

module _ (alloc : ℕ → Bool) (lzxd : ℕ → ℕ → ℕ → Option Decoder) where
  -- Whatever the decoder does, `doXexUnpack` reports success exactly if it could be set up; its
  -- output depends on no byte behind the input, and no byte behind the output changes. Both are
  -- shorter than 2 GB.
  do_xex_unpack_lem :
      (mem mem' out : Memory) (in_len out_len window_size : ℕ)
      → in_len < 2 ^ 31
      → out_len < 2 ^ 31
      → ((k : ℕ) → k < in_len → mem k ≡ mem' k)
      → let u = do_xex_unpack alloc lzxd mem in_len out out_len window_size in
        (u.ret ≡ is_some (lzxd (get_bit_size window_size) window_size out_len))
        × (u ≡ do_xex_unpack alloc lzxd mem' in_len out out_len window_size)
        × ((k : ℕ) → out_len ≤ k → u.out k ≡ out k)
  unfolding do_xex_unpack mem_open
  do_xex_unpack_lem mem mem' out in_len out_len window_size small small' same =
      elim (lzxd (get_bit_size window_size) window_size out_len)
        as (λ l.
          let u = do_xex_unpack alloc (λ a b c. l) mem in_len out out_len window_size in
          (u.ret ≡ is_some l)
          × (u ≡ do_xex_unpack alloc (λ a b c. l) mem' in_len out out_len window_size)
          × ((k : ℕ) → out_len ≤ k → u.out k ≡ out k)) [
            | none ↦ (refl, refl, λ k le. refl)
            | some decoder ↦ (
              refl,
              λ i. record {
                ret = true;
                out = written out (
                    opened_same decoder (alloc 16) mem mem' in_len (opened (alloc 16) out out_len)
                      small same i);
              },
              λ k le.
                  opened_outside decoder (alloc 16) (opened (alloc 16) mem in_len) out out_len k
                    small' le,
            )
          ]

  -- For a chain of blocks, as `rebufInData` wants it, that is shorter than 2 GB, `unpackXexData`
  -- ends with the fuel that the chain asks for. It gives the decoder the stream of the chain: its
  -- result is that of `doXexUnpack` for any memory that starts with the stream. It reports success
  -- exactly if the decoder could be set up, and leaves what stands behind the output, which is
  -- shorter than 2 GB.
  pub unpack_xex_data_lem :
      (fuel : ℕ) (mem out : Memory) (bs : List Block) (out_len window_size : ℕ)
      → Stands mem 0 (chain_bytes bs)
      → All IsBlock bs
      → length (chain_bytes bs) < 2 ^ 31
      → out_len < 2 ^ 31
      → alloc (length (chain_bytes bs)) ≡ true
      → fuel_of bs ≤ fuel
      → (u : Unpacked) × (unpack_xex_data alloc lzxd fuel mem
            (length (chain_bytes bs))
            out
            out_len
            window_size
            (first_size bs)
          ≡ some u)
        × (u.ret ≡ is_some (lzxd (get_bit_size window_size) window_size out_len))
        × ((input : Memory)
            → ((k : ℕ) → k < length (stream bs) → byte_at (stream bs) k ≡ input k)
            → u ≡ do_xex_unpack alloc lzxd input (length (stream bs)) out out_len window_size)
        × ((k : ℕ) → out_len ≤ k → u.out k ≡ out k)
  unfolding unpack_xex_data
  unpack_xex_data_lem fuel mem out bs out_len window_size h good small small' room enough =
      let (run, le) =
        rebuf_in_data_lem alloc fuel mem bs h good (omega (arith, small)) room enough in
      let any =
        λ (input : Memory)
            (same : (k : ℕ) → k < length (stream bs) → byte_at (stream bs) k ≡ input k).
          do_xex_unpack_lem (list_memory (stream bs)) input out (length (stream bs)) out_len
            window_size (omega (arith, le, small)) small' same in
      let own = any (list_memory (stream bs)) (λ k lt. refl) in
      (
        do_xex_unpack alloc lzxd (list_memory (stream bs)) (length (stream bs)) out out_len
            window_size,
        rw (run, unpack_xex_data) refl,
        own.0,
        λ input same. (any input same).1,
        own.2,
      )
