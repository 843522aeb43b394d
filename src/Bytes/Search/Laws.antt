-- ===== src/Bytes/Search/Laws.antt =====
-- What `findInst` of tools/iso2svod/source/util.c finds: the first occurrence that ends before the
-- end of the buffer.
use xe_build.Base.{ℕ, zero, suc, ◌+◌, ◌-◌, ◌≤◌, ◌<◌, ◌≡◌, some, none, List, arith}
use xe_build.Bytes.{byte_at}
use xe_build.Bytes.Search.{inner, find_from, find_inst}

-- The pattern stands in the buffer at `i`.
abbrev pub MatchesAt : List ℕ → List ℕ → ℕ → ℕ → Type 0
MatchesAt bytes fbytes fblen i = (k : ℕ) → k < fblen → byte_at bytes (i + k) ≡ byte_at fbytes k

module _ (bytes fbytes : List ℕ) (fblen : ℕ) where
  inner_sound :
      (i left j k : ℕ)
      → j + left ≡ fblen
      → inner bytes fbytes fblen i left j ≡ fblen
      → j ≤ k
      → k < fblen
      → byte_at bytes (i + k) ≡ byte_at fbytes k
  unfolding inner
  inner_sound i zero j k e h lo hi = absurd (omega arith)
  inner_sound i (suc left) j k e h lo hi = ground (arith, inner_sound i left (j + 1) k)

  inner_complete :
      (i left j : ℕ)
      → j + left ≡ fblen
      → MatchesAt bytes fbytes fblen i
      → inner bytes fbytes fblen i left j ≡ fblen
  unfolding inner
  inner_complete i zero j e m = omega arith
  inner_complete i (suc left) j e m =
      ground (arith, m j (omega arith), inner_complete i left (j + 1) (omega arith) m)

  find_from_sound :
      (left i k : ℕ)
      → find_from bytes fbytes fblen left i ≡ some k
      → (i ≤ k) × (k < i + left) × (inner bytes fbytes fblen k fblen 0 ≡ fblen)
  unfolding find_from
  find_from_sound zero i k h = ground arith
  find_from_sound (suc left) i k h = ground (arith, find_from_sound left (i + 1) k)

  -- The search passes over no match.
  find_from_first :
      (left i k : ℕ)
      → 0 < fblen
      → find_from bytes fbytes fblen left i ≡ some k
      → (m : ℕ) → i ≤ m
      → m < k
      → MatchesAt bytes fbytes fblen m
      → ⊥
  unfolding find_from
  find_from_first zero i k pos h m lo hi match = ground arith
  find_from_first (suc left) i k pos h m lo hi match = ground (
    arith,
    match 0 pos,
    inner_complete m fblen 0 (omega arith) match,
    λ (p : i + 1 ≤ m) (q : find_from bytes fbytes fblen left (i + 1) ≡ some k).
        find_from_first left (i + 1) k pos q m p hi match,
  )

  find_from-none :
      (left i : ℕ)
      → 0 < fblen
      → find_from bytes fbytes fblen left i ≡ none
      → (m : ℕ) → i ≤ m
      → m < i + left
      → MatchesAt bytes fbytes fblen m
      → ⊥
  unfolding find_from
  find_from-none zero i pos h m lo hi match = omega arith
  find_from-none (suc left) i pos h m lo hi match = ground (
    arith,
    match 0 pos,
    inner_complete m fblen 0 (omega arith) match,
    λ (p : i + 1 ≤ m) (q : find_from bytes fbytes fblen left (i + 1) ≡ none).
        find_from-none left (i + 1) pos q m p (omega arith) match,
  )

-- For a pattern of at least one byte, `findInst` returns the first place at which the pattern
-- stands and ends strictly before the end of the data, and returns NULL only if there is no such
-- place. An occurrence that ends exactly at the end of the data is never returned.
pub find_inst_lem :
    (bytes : List ℕ) (data_len : ℕ) (fbytes : List ℕ) (fblen : ℕ)
    → 0 < fblen
    → ((i : ℕ)
        → find_inst bytes data_len fbytes fblen ≡ some i
        → (i + fblen < data_len)
          × MatchesAt bytes fbytes fblen i
          × ((m : ℕ) → m < i → MatchesAt bytes fbytes fblen m → ⊥))
      × (find_inst bytes data_len fbytes fblen ≡ none
          → (i : ℕ) → i + fblen < data_len
          → MatchesAt bytes fbytes fblen i
          → ⊥)
unfolding find_inst
find_inst_lem bytes data_len fbytes fblen pos = (
  λ i h.
      let found = find_from_sound bytes fbytes fblen (data_len - fblen) 0 i h in
      (
        omega (arith, found),
        λ k lt. inner_sound bytes fbytes fblen i fblen 0 k (omega arith) found.2 (omega arith) lt,
        λ m lt. find_from_first bytes fbytes fblen (data_len - fblen) 0 i pos h m (omega arith) lt,
      ),
  λ h i lt.
      find_from-none bytes fbytes fblen (data_len - fblen) 0 pos h i (omega arith) (omega arith),
)
