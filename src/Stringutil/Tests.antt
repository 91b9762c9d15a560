-- ===== src/Stringutil/Tests.antt =====
-- Runs of the functions of internal/kernel/stringutil/truncate.go, and its theorems at inputs.
use maven.Base.{◌≤◌, ◌<◌, ◌≡◌, refl, List, [], ◌∷◌, arith, some, ◌⊎◌, true}
use maven.Base.Text.{codes}
use maven.Stringutil.{
  Bytes, truncate, rune_start, byte_at, rune_aligned_cut, chunk_bytes, truncate_bytes,
  truncate_runes_tail,
}
use maven.Stringutil.Chunks.{Chunked, NoStart, chunk_bytes-Chunked, rune_aligned_cut-last}
use maven.Stringutil.Runes.{Longest, Tail, truncate_bytes-Longest, truncate_runes_tail-Tail}

-- The UTF-8 bytes of "aé\nbcd".
abbrev accents : Bytes
accents = b'a' ∷ 0xc3 ∷ 0xa9 ∷ 10 ∷ b'b' ∷ b'c' ∷ b'd' ∷ []

truncate_runs : truncate (codes "hello") 3 ≡ codes "hel..."
unfolding truncate
truncate_runs = refl

-- A cut inside é moves back to its start.
chunk_bytes_runs :
    chunk_bytes accents 2
    ≡ some ((b'a' ∷ []) ∷ (0xc3 ∷ 0xa9 ∷ []) ∷ (10 ∷ b'b' ∷ []) ∷ (b'c' ∷ b'd' ∷ []) ∷ [])
unfolding chunk_bytes
chunk_bytes_runs = refl

chunk_bytes-Chunked_example :
    (chunks : List Bytes) × (chunk_bytes accents 2 ≡ some chunks) × Chunked accents 2 chunks
chunk_bytes-Chunked_example = chunk_bytes-Chunked accents 2 (omega arith) (cc)

rune_aligned_cut-last_example :
    ((0 < rune_aligned_cut accents 2)
      × (rune_aligned_cut accents 2 ≤ 2)
      × (rune_start (byte_at accents (rune_aligned_cut accents 2)) ≡ true)
      × NoStart accents (rune_aligned_cut accents 2) 2)
    ⊎ ((rune_aligned_cut accents 2 ≡ 2) × NoStart accents 0 2)
rune_aligned_cut-last_example = rune_aligned_cut-last accents 2 (omega arith)

truncate_bytes-Longest_example :
    Longest 3 (b'a' ∷ 233 ∷ 233 ∷ []) (truncate_bytes (b'a' ∷ 233 ∷ 233 ∷ []) 3)
truncate_bytes-Longest_example = truncate_bytes-Longest (b'a' ∷ 233 ∷ 233 ∷ []) 3 (omega arith)

truncate_bytes_runs : truncate_bytes (b'a' ∷ 233 ∷ 233 ∷ []) 3 ≡ b'a' ∷ 233 ∷ []
unfolding truncate_bytes
truncate_bytes_runs = refl

truncate_runes_tail-Tail_example :
    Tail (codes "abcdef") 4 (codes "..") (truncate_runes_tail (codes "abcdef") 4 (codes ".."))
truncate_runes_tail-Tail_example =
    truncate_runes_tail-Tail (codes "abcdef") 4 (codes "..") (omega arith)
