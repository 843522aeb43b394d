-- ===== src/Header/Content.antt =====
-- What the header of a finished package holds.
use xe_build.Base.{
  ℕ, ◌+◌, ◌-◌, ◌≡◌, inl, refl, sym, ap, ◌∙◌, Bool, true, ◌&&◌, ◌||◌, Option, none, some, List, [],
  ◌∷◌, length, arith, ltb, leb, u32, clear_bits,
}
use xe_build.Bytes.{bytes32, bytes64}
use xe_build.Svod.Disc.{Memory, slice}
use xe_build.Svod.Layout.{DataFiles, VolumeBlocks}
use xe_build.Svod.Writer.{Hash}
use xe_build.Svod.Writer.Blocks.{slice_ext}
use xe_build.Header.{
  header_size, content_id, size_of_headers, meta, volume_at, first_hash_at, data_files_at,
  data_files_size_at, volume_type_at, prepare_volume, prepare_header_file, store_volume_blocks,
  store_data_files, store_first_hash, finalize_header_file,
}
use mathlib.Core.Path.{subst}
use xe_build.Stfs.{con_check_hashes, data_start, check_loop, first_state}
use xe_build.Stfs.Sound.{same_hash_iff}
use xe_build.Bytes.{get_be32}
use xe_build.Spa.Strings.{Parsed}
use xe_build.Header.Stores.{Apart, slice-store_same, slice-store-Apart}

-- The fields that stand from `openIsoFile` on: the kind and the size of the header, the counts.
pub record HasCounts (v : VolumeBlocks) (f : DataFiles) (h : Memory) : Type 0 where
  pub kind : slice h 0 4 ≡ bytes32 0x4c495645
  pub size : slice h size_of_headers 4 ≡ bytes32 0xad0e
  pub volume : slice h volume_at 4 ≡ 0x24 ∷ 5 ∷ 5 ∷ 0x11 ∷ []
  pub blocks :
      slice h (volume_at + 0x19) 6
      ≡ v.number_of_data_blocks2 ∷ v.number_of_data_blocks1 ∷ v.number_of_data_blocks0
        ∷ v.starting_data_block0 ∷ v.starting_data_block1 ∷ v.starting_data_block2 ∷ []
  pub data_files : slice h data_files_at 4 ≡ bytes32 f.data_files
  pub data_files_size : slice h data_files_size_at 8 ≡ bytes64 f.data_files_size
  pub volume_type : slice h volume_type_at 4 ≡ bytes32 1

-- A change that leaves these fields alone.
abbrev pub is_counts : ℕ → Bool
is_counts k =
    ltb k 4
    || ((leb size_of_headers k && ltb k meta)
        || ((leb volume_at k && ltb k (volume_at + 4))
            || ((leb (volume_at + 0x19) k && ltb k (volume_at + 0x1f))
                || (leb data_files_at k && ltb k (volume_type_at + 4)))))

-- A call that leaves them alone where it returns, as `getXexInfoData` is expected to.
abbrev pub CountsIn : Memory → Option Parsed → Type 0
CountsIn h none = Unit
CountsIn h (some r) = (k : ℕ) → is_counts k ≡ true → r.header k ≡ h k

abbrev pub KeepsCounts : (Memory → ℕ → Memory → Option Parsed) → Type 0
KeepsCounts xex_info =
    (mem : Memory) (n : ℕ) (h : Memory) (r : Parsed)
    → xex_info mem n h ≡ some r
    → (k : ℕ) → is_counts k ≡ true
    → r.header k ≡ h k

pub HasCounts-kept :
    (v : VolumeBlocks) (f : DataFiles) (h h' : Memory)
    → ((k : ℕ) → is_counts k ≡ true → h' k ≡ h k)
    → HasCounts v f h
    → HasCounts v f h'
HasCounts-kept v f h h' kept c = record {
  kind = slice_ext h' h 0 0 4 (λ k lt. kept (0 + k) (ground (arith, lt))) ∙ c.kind;
  size =
      slice_ext h' h size_of_headers size_of_headers 4
        (λ k lt. kept (size_of_headers + k) (ground (arith, lt)))
      ∙ c.size;
  volume =
      slice_ext h' h volume_at volume_at 4 (λ k lt. kept (volume_at + k) (ground (arith, lt)))
      ∙ c.volume;
  blocks =
      slice_ext h' h (volume_at + 0x19) (volume_at + 0x19) 6
        (λ k lt. kept (volume_at + 0x19 + k) (ground (arith, lt)))
      ∙ c.blocks;
  data_files =
      slice_ext h' h data_files_at data_files_at 4
        (λ k lt. kept (data_files_at + k) (ground (arith, lt)))
      ∙ c.data_files;
  data_files_size =
      slice_ext h' h data_files_size_at data_files_size_at 8
        (λ k lt. kept (data_files_size_at + k) (ground (arith, lt)))
      ∙ c.data_files_size;
  volume_type =
      slice_ext h' h volume_type_at volume_type_at 4
        (λ k lt. kept (volume_type_at + k) (ground (arith, lt)))
      ∙ c.volume_type;
}

-- The stores of `prepareHeaderFile`, then those of `calcDataBlocks` and `calcDataFileSizes`.
pub store_counts-HasCounts :
    (v : VolumeBlocks) (f : DataFiles)
    → HasCounts v f (store_data_files f (store_volume_blocks v prepare_header_file))
unfolding prepare_header_file prepare_volume store_data_files store_volume_blocks slice
store_counts-HasCounts v f = record {
  kind = refl;
  size = refl;
  volume = refl;
  blocks = refl;
  data_files = refl;
  data_files_size = refl;
  volume_type = refl;
}

start_lem : clear_bits (u32 (get_be32 (bytes32 0xad0e) 0 + 0xfff)) 12 ≡ header_size
unfolding get_be32
start_lem = refl

-- A header that is finished: the counts, the hash of the first file's header, and the content ID,
-- which is the hash of all that is behind it from the metadata on.
pub record IsFinished (sha : List ℕ → Hash) (v : VolumeBlocks) (f : DataFiles) (first : Hash)
    (h : Memory) : Type 0 where
  pub counts : HasCounts v f h
  pub first_hash : slice h first_hash_at 20 ≡ first
  pub content : slice h content_id 20 ≡ sha (slice h meta (header_size - meta))

module _ (sha : List ℕ → Hash) (digest : (xs : List ℕ) → length (sha xs) ≡ 20) where
  finalize_kept :
      (h : Memory) (q n : ℕ)
      → Apart content_id 20 q n
      → slice (finalize_header_file sha h) q n ≡ slice h q n
  unfolding finalize_header_file
  finalize_kept h q n apart =
      let hash = sha (slice h meta (header_size - meta)) in
      slice-store-Apart h content_id hash q n
        (rw (digest (slice h meta (header_size - meta))) apart)

  -- The hash covers nothing of itself.
  pub finalize_content :
      (h : Memory)
      → let h' = finalize_header_file sha h in
        slice h' content_id 20 ≡ sha (slice h' meta (header_size - meta))
  unfolding finalize_header_file
  finalize_content h =
      let body = slice h meta (header_size - meta) in
      let same : slice (finalize_header_file sha h) meta (header_size - meta) ≡ body =
        finalize_kept h meta (header_size - meta) (inl (omega arith)) in
      subst (λ n. slice (finalize_header_file sha h) content_id n ≡ sha body) (digest body)
        (slice-store_same h content_id (sha body))
      ∙ ap sha (sym same)

  pub finish-IsFinished :
      (v : VolumeBlocks) (f : DataFiles) (first : Hash) (h : Memory)
      → length first ≡ 20
      → HasCounts v f h
      → IsFinished sha v f first (finalize_header_file sha (store_first_hash first h))
  unfolding store_first_hash finalize_header_file
  finish-IsFinished v f first h twenty counts =
      let h' = store_first_hash first h in
      let body = sha (slice h' meta (header_size - meta)) in
      record {
        counts =
            HasCounts-kept v f h (finalize_header_file sha h')
              (λ k is. ground (arith, is, twenty, digest (slice h' meta (header_size - meta))))
              counts;
        first_hash =
            finalize_kept h' first_hash_at 20 (inl (omega arith))
            ∙ subst (λ n. slice h' first_hash_at n ≡ first) twenty
                (slice-store_same h first_hash_at first);
        content = finalize_content h';
      }

  -- `conCheckHashes` of su_check gets past its first test on a header that `finalizeHeaderFile` has
  -- finished, if the size in the header is the one that `prepareHeaderFile` stores: the data are
  -- looked for from 0xB000 on, and what is left is the loop over the hash tables.
  pub finalize_header_file-con_check_hashes :
      (h : Memory) (fuel len : ℕ)
      → slice h size_of_headers 4 ≡ bytes32 0xad0e
      → let con = finalize_header_file sha h in
        con_check_hashes sha con fuel (data_start sha con) len
        ≡ check_loop sha con header_size len fuel (first_state sha con header_size)
  unfolding con_check_hashes
  finalize_header_file-con_check_hashes h fuel len size =
      let con = finalize_header_file sha h in
      let kept : slice con size_of_headers 4 ≡ bytes32 0xad0e =
        finalize_kept h size_of_headers 4 (inl (omega arith)) ∙ size in
      let start : data_start sha con ≡ header_size = rw kept (start_lem) in
      let same =
        (same_hash_iff (slice con content_id 20) (sha (slice con meta (header_size - meta)))).1
          (finalize_content h) in
      rw (start, same) refl
