-- ===== src/Stringutil/Chunks.antt =====
-- `ChunkBytes` and `RuneAlignedCut` of internal/kernel/stringutil/truncate.go: what the chunks are.

use maven.Base.{
  ℕ, zero, suc, ◌≤◌, ◌<◌, ◌≡◌, ◌≢◌, refl, ap, ◌⊎◌, inl, inr, true, false, Option, none, some, List,
  [], ◌∷◌, arith, ltb, leb, ltb→lt, leb→le, ◌==◌, if◌then◌else◌, is_empty, length, take, drop, All,
  concat, Bool-cases, Option-cases, take-append-drop, length-take, length-drop, append-nil,
}
use maven.Stringutil.{
  Bytes, rune_start, byte_at, scan_back, rune_aligned_cut, last_index, split_point, chunk_loop,
  chunk_bytes,
}

-- No byte from `lo + 1` to `hi` starts a rune.
abbrev pub NoStart : Bytes → ℕ → ℕ → Type 0
NoStart s lo hi = (j : ℕ) → lo < j → j ≤ hi → rune_start (byte_at s j) ≡ false

-- `i` is the last offset up to `hi` at which a rune starts, or `max_bytes` if there is none.
abbrev LastStart : Bytes → ℕ → ℕ → ℕ → Type 0
LastStart s max_bytes hi i =
    ((0 < i) × (i ≤ hi) × (rune_start (byte_at s i) ≡ true) × NoStart s i hi)
    ⊎ ((i ≡ max_bytes) × NoStart s 0 hi)

NoStart-suc :
    (s : Bytes) (lo hi : ℕ)
    → rune_start (byte_at s (suc hi)) ≡ false
    → NoStart s lo hi
    → NoStart s lo (suc hi)
NoStart-suc s lo hi e h j lt le = elim (Bool-cases (j == suc hi)) [
  | inl same ↦ ground (arith, ap (byte_at s) (let q : j ≡ suc hi = ground arith in q))
  | inr other ↦ h j lt (ground arith)
]

LastStart-suc :
    (s : Bytes) (max_bytes hi i : ℕ)
    → rune_start (byte_at s (suc hi)) ≡ false
    → LastStart s max_bytes hi i
    → LastStart s max_bytes (suc hi) i
LastStart-suc s max_bytes hi i e (inl (a, b, c, d)) =
    inl (a, omega arith, c, NoStart-suc s i hi e d)
LastStart-suc s max_bytes hi i e (inr (a, b)) = inr (a, NoStart-suc s 0 hi e b)

rune_aligned_cut-long :
    (s : Bytes) (max_bytes : ℕ)
    → max_bytes < length s
    → rune_aligned_cut s max_bytes ≡ scan_back s max_bytes max_bytes
unfolding rune_aligned_cut
rune_aligned_cut-long s max_bytes h = ground arith

scan_back-LastStart :
    (s : Bytes) (max_bytes hi : ℕ) → LastStart s max_bytes hi (scan_back s max_bytes hi)
unfolding scan_back
scan_back-LastStart s max_bytes zero = inr (refl, λ j lt le. absurd (omega arith))
scan_back-LastStart s max_bytes (suc hi) = elim (Bool-cases (rune_start (byte_at s (suc hi)))) [
  | inl start ↦ rw start (inl (omega arith, omega arith, start, λ j lt le. absurd (omega arith)))
  | inr inner ↦ rw inner (LastStart-suc s max_bytes hi _ inner (scan_back-LastStart s max_bytes hi))
]

-- The cut of a text longer than the limit is the last rune start up to the limit, or the limit if
-- no rune starts there.
pub rune_aligned_cut-last :
    (s : Bytes) (max_bytes : ℕ)
    → max_bytes < length s
    → ((0 < rune_aligned_cut s max_bytes)
        × (rune_aligned_cut s max_bytes ≤ max_bytes)
        × (rune_start (byte_at s (rune_aligned_cut s max_bytes)) ≡ true)
        × NoStart s (rune_aligned_cut s max_bytes) max_bytes)
      ⊎ ((rune_aligned_cut s max_bytes ≡ max_bytes) × NoStart s 0 max_bytes)
rune_aligned_cut-last s max_bytes h =
    rw (rune_aligned_cut-long s max_bytes h) (scan_back-LastStart s max_bytes max_bytes)

last_index-lt : (d : ℕ) (s : Bytes) (i : ℕ) → last_index d s ≡ some i → i < length s
unfolding last_index
last_index-lt d [] i h = cc
last_index-lt d (c ∷ s) i h = elim (Option-cases (last_index d s)) [
  | inl e ↦ ground arith
  | inr (k, e) ↦ ground (arith, last_index-lt d s k e)
]

rune_aligned_cut_bounds :
    (s : Bytes) (max_bytes : ℕ)
    → 0 < max_bytes
    → max_bytes < length s
    → (0 < rune_aligned_cut s max_bytes) × (rune_aligned_cut s max_bytes ≤ max_bytes)
rune_aligned_cut_bounds s max_bytes pos long = elim (rune_aligned_cut-last s max_bytes long) [
  | inl (a, b, _, _) ↦ (a, b)
  | inr (e, _) ↦ (omega arith, omega arith)
]

-- A cut makes progress and stays within the limit.
split_point_bounds :
    (max_bytes : ℕ) (s : Bytes)
    → 0 < max_bytes
    → max_bytes < length s
    → (0 < split_point max_bytes s) × (split_point max_bytes s ≤ max_bytes)
unfolding split_point
split_point_bounds max_bytes s pos long = by_index (last_index 10 (take max_bytes s)) refl
  where
    by_index :
        (o : Option ℕ)
        → last_index 10 (take max_bytes s) ≡ o
        → (0 < split_point max_bytes s) × (split_point max_bytes s ≤ max_bytes)
    by_index none e = rw (e, split_point) (rune_aligned_cut_bounds s max_bytes pos long)
    by_index (some zero) e = rw (e, split_point) (rune_aligned_cut_bounds s max_bytes pos long)
    by_index (some (suc i)) e =
        rw (e, split_point)
          (
            omega arith,
            omega (arith, last_index-lt 10 (take max_bytes s) (suc i) e, length-take max_bytes s),
          )

-- What `ChunkBytes` promises of its chunks.
pub record Chunked (s : Bytes) (max_bytes : ℕ) (chunks : List Bytes) : Type 0 where
  pub whole : concat chunks ≡ s
  pub sizes : All (λ c. (0 < length c) × (length c ≤ max_bytes)) chunks

last_chunk-Chunked :
    (s : Bytes) (max_bytes : ℕ)
    → length s ≤ max_bytes
    → Chunked s max_bytes (if is_empty s then [] else s ∷ [])
last_chunk-Chunked [] max_bytes h = record { whole = refl; sizes = tt }
last_chunk-Chunked (b ∷ s) max_bytes h = record {
  whole = append-nil (b ∷ s);
  sizes = ((omega arith, h), tt);
}

chunk_loop_step :
    (fuel max_bytes : ℕ) (s : Bytes) {chunks : List Bytes}
    → max_bytes < length s
    → chunk_loop fuel max_bytes (drop (split_point max_bytes s) s) ≡ some chunks
    → chunk_loop (suc fuel) max_bytes s ≡ some (take (split_point max_bytes s) s ∷ chunks)
unfolding chunk_loop
chunk_loop_step fuel max_bytes s long e = ground arith

chunk_loop-Chunked :
    (fuel max_bytes : ℕ) (s : Bytes)
    → 0 < max_bytes
    → length s < fuel
    → (chunks : List Bytes) × (chunk_loop fuel max_bytes s ≡ some chunks)
      × Chunked s max_bytes chunks
unfolding chunk_loop
chunk_loop-Chunked zero max_bytes s pos enough = absurd (omega arith)
chunk_loop-Chunked (suc fuel) max_bytes s pos enough =
    elim (Bool-cases (ltb max_bytes (length s))) [
      | inr short ↦ (_, rw (short, chunk_loop), last_chunk-Chunked s max_bytes (ground arith))
      | inl long ↦
          let at = split_point max_bytes s in
          let (low, high) = split_point_bounds max_bytes s pos (ltb→lt _ _ long) in
          let longer = ltb→lt _ _ long in
          let cut_length = length-take at s in
          let (chunks, run, rest) =
            chunk_loop-Chunked fuel max_bytes (drop at s) pos (omega (arith, length-drop at s)) in
          (
            take at s ∷ chunks,
            chunk_loop_step fuel max_bytes s longer run,
            record {
              whole = rw rest.whole (take-append-drop at s);
              sizes = ((omega arith, omega arith), rest.sizes);
            },
          )
    ]

-- For every text and every positive limit `ChunkBytes` ends; its chunks joined are the text, and
-- none is empty or longer than the limit, if the text is not empty.
pub chunk_bytes-Chunked :
    (s : Bytes) (max_bytes : ℕ)
    → 0 < max_bytes
    → s ≢ []
    → (chunks : List Bytes) × (chunk_bytes s max_bytes ≡ some chunks) × Chunked s max_bytes chunks
unfolding chunk_bytes
chunk_bytes-Chunked [] max_bytes pos h = absurd (h refl)
chunk_bytes-Chunked (b ∷ s) max_bytes pos h = elim (Bool-cases (leb (length (b ∷ s)) max_bytes)) [
  | inl short ↦ (
    (b ∷ s) ∷ [],
    ground arith,
    record { whole = append-nil (b ∷ s); sizes = ((omega arith, leb→le _ _ short), tt) },
  )
  | inr long ↦
      let (chunks, run, all) =
        chunk_loop-Chunked (suc (length (b ∷ s))) max_bytes (b ∷ s) pos (omega arith) in
      (chunks, ground arith, all)
]
