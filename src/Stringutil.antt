-- ===== src/Stringutil.antt =====
-- internal/kernel/stringutil/truncate.go. `Truncate`, `ChunkBytes` and `RuneAlignedCut` walk bytes:
-- their strings are lists of bytes. `TruncateBytes`, `TruncateRunes` and `TruncateRunesTail` walk
-- runes: their strings are valid UTF-8, given by its code points. A limit is never negative here,
-- since the code treats a negative limit as 0 (`Truncate` is only called with positive ones).
pub mod Chunks
pub mod Runes
pub mod Tests
use mathlib.Core.Option
use maven.Base.{
  ℕ, zero, suc, ◌+◌, ◌-◌, Bool, true, false, not, ◌&&◌, ◌||◌, Option, none, some, List, [], ◌∷◌,
  ◌++◌, ltb, leb, ◌==◌, if◌then◌else◌, length, get_elem?, take, drop, is_empty,
}
use maven.Base.Text.{Text, codes, rune_len, byte_len}

abbrev pub Bytes : Type 0
Bytes = List ℕ

-- `Truncate`.
unfoldable pub truncate : Bytes → ℕ → Bytes
truncate s n = if leb (length s) n then s else take n s ++ codes "..."

-- `utf8.RuneStart`: not a continuation byte 10xxxxxx.
unfoldable pub rune_start : ℕ → Bool
rune_start b = not (leb 0x80 b && ltb b 0xc0)

-- `s[i]`, which the code reads below `len(s)` only.
unfoldable pub byte_at : Bytes → ℕ → ℕ
byte_at [] i = 0
byte_at (b ∷ s) zero = b
byte_at (b ∷ s) (suc i) = byte_at s i

-- The loop of `RuneAlignedCut`, from `i` down to 1.
scan_back : Bytes → ℕ → ℕ → ℕ
scan_back s max_bytes zero = max_bytes
scan_back s max_bytes (suc i) =
    if rune_start (byte_at s (suc i)) then suc i else scan_back s max_bytes i

unfoldable pub rune_aligned_cut : Bytes → ℕ → ℕ
unfolding scan_back byte_at rune_start
rune_aligned_cut s max_bytes =
    if leb (length s) max_bytes then length s else scan_back s max_bytes max_bytes

-- `strings.LastIndex` of one byte; none for -1.
unfoldable pub last_index : ℕ → Bytes → Option ℕ
last_index d [] = none
last_index d (c ∷ s) = elim (last_index d s) [
  | some i ↦ some (suc i)
  | none ↦ if c == d then some 0 else none
]

-- Where the loop of `ChunkBytes` cuts: at the last newline that is not the first byte, or at a rune.
split_point : ℕ → Bytes → ℕ
unfolding last_index rune_aligned_cut
split_point max_bytes s = elim (last_index 10 (take max_bytes s)) [
  | some (suc i) ↦ suc i
  | _ ↦ rune_aligned_cut s max_bytes
]

-- The loop of `ChunkBytes`; none if the fuel runs out.
chunk_loop : ℕ → ℕ → Bytes → Option (List Bytes)
unfolding split_point
chunk_loop zero max_bytes s = none
chunk_loop (suc fuel) max_bytes s = elim (ltb max_bytes (length s)) [
  | false ↦ some (if is_empty s then [] else s ∷ [])
  | true ↦
      let at = split_point max_bytes s in
      Option.map (λ chunks. take at s ∷ chunks) (chunk_loop fuel max_bytes (drop at s))
]

unfoldable pub chunk_bytes : Bytes → ℕ → Option (List Bytes)
unfolding chunk_loop
chunk_bytes s max_bytes =
    if max_bytes == 0 || leb (length s) max_bytes
    then some (s ∷ [])
    else chunk_loop (suc (length s)) max_bytes s

-- The loop of `TruncateBytes`, at `count` bytes.
fit : ℕ → ℕ → Text → Text
unfolding rune_len
fit max_bytes count [] = []
fit max_bytes count (c ∷ s) =
    let rest = fit max_bytes (count + rune_len c) s in
    if ltb max_bytes (count + rune_len c) then [] else c ∷ rest

unfoldable pub truncate_bytes : Text → ℕ → Text
unfolding fit byte_len
truncate_bytes s max_bytes =
    if max_bytes == 0 || leb (byte_len s) max_bytes then s else fit max_bytes 0 s

-- The loop of `TruncateRunes`, at `n` runes.
take_runes : ℕ → ℕ → Text → Text
take_runes max_runes n [] = []
take_runes max_runes n (c ∷ s) =
    let rest = take_runes max_runes (n + 1) s in if n == max_runes then [] else c ∷ rest

unfoldable pub truncate_runes : Text → ℕ → Text
unfolding take_runes
truncate_runes s max_runes = if max_runes == 0 then s else take_runes max_runes 0 s

-- `TruncateRunesTail`.
unfoldable pub truncate_runes_tail : Text → ℕ → Text → Text
truncate_runes_tail s max_runes marker =
    if max_runes == 0
    then s
    else if leb (length s) max_runes
    then s
    else if leb max_runes (length marker)
    then drop (length s - max_runes) s
    else marker ++ drop (length s - max_runes + length marker) s
