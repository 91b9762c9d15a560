-- ===== src/Voice/Sentences.antt =====
-- internal/kernel/voice/sentence.go and transforms.go: an answer is cut into sentences while it
-- comes in. An index into the text is the pair of the texts before and behind it; the loop over the
-- sentences runs on the length of the text, since each round takes a character from it.
pub mod Spoken
use maven.Base.{
  ℕ, zero, suc, Bool, true, false, not, ◌&&◌, ◌||◌, Option, none, some, List, [], ◌∷◌, ◌++◌, ◌==◌,
  leb, length, if◌then◌else◌, is_empty,
}
use maven.Base.Text.{Text, is_space, trim_left, trim_space}

-- `.`, `!` and `?`.
abbrev pub is_end : ℕ → Bool
is_end c = c == b'.' || (c == b'!' || c == b'?')

abbrev pub ends_here : Text → Bool
ends_here [] = true
ends_here (c ∷ s) = is_space c

abbrev pub prefixed : ℕ → Option (Text × Text) → Option (Text × Text)
prefixed c none = none
prefixed c (some (before, after)) = some (c ∷ before, after)

-- `findSentenceEndIndex`; none is -1.
unfoldable pub find_sentence_end : Text → Option (Text × Text)
unfolding is_space
find_sentence_end [] = none
find_sentence_end (c ∷ s) =
    let rest = find_sentence_end s in
    if is_end c && ends_here s then some (c ∷ [], s) else prefixed c rest

-- The second loop of `truncateToMaxRunes`: up to the next space, which it takes.
unfoldable pub cut_at_space : Text → Text × Text
unfolding is_space
cut_at_space [] = ([], [])
cut_at_space (c ∷ s) =
    let rest = cut_at_space s in if is_space c then (c ∷ [], s) else (c ∷ rest.0, rest.1)

-- `truncateToMaxRunes`.
unfoldable pub truncate_to_max_runes : ℕ → Text → Text × Text
unfolding cut_at_space
truncate_to_max_runes zero s = cut_at_space s
truncate_to_max_runes (suc n) [] = ([], [])
truncate_to_max_runes (suc n) (c ∷ s) = let rest = truncate_to_max_runes n s in (c ∷ rest.0, rest.1)

abbrev pub max_speech_fragment_runes : ℕ
max_speech_fragment_runes = 800

-- " \t\n\r".
unfoldable pub is_blank : ℕ → Bool
is_blank c = c == b' ' || (c == 9 || (c == 10 || c == 13))

-- `strings.TrimLeft(s, " \t\n\r")`.
unfoldable pub trim_blanks : Text → Text
unfolding is_blank
trim_blanks [] = []
trim_blanks (c ∷ s) = let rest = trim_blanks s in if is_blank c then rest else c ∷ s

-- `out = append(out, sent)` of the trimmed text, unless it is empty.
abbrev pub add_sentence : Text → List Text → List Text
add_sentence t out = if is_empty (trim_space t) then out else trim_space t ∷ out

-- `TakeCompleteSentences` behind the loop: the fragments and the new buffer.
unfoldable pub take_long : Text → List Text × Text
unfolding truncate_to_max_runes trim_space trim_blanks
take_long s =
    if leb max_speech_fragment_runes (length s)
    then (
      add_sentence (truncate_to_max_runes max_speech_fragment_runes s).0 [],
      trim_blanks (truncate_to_max_runes max_speech_fragment_runes s).1,
    )
    else ([], s)

-- The loop.
unfoldable pub take_from : ℕ → Text → List Text × Text
unfolding find_sentence_end take_long trim_space
take_from zero s = take_long s
take_from (suc fuel) s = elim (find_sentence_end s) [
  | none ↦ take_long s
  | some (sent, rest) ↦ let more = take_from fuel rest in (add_sentence sent more.0, more.1)
]

-- `TakeCompleteSentences`.
unfoldable pub take_complete_sentences : Text → List Text × Text
unfolding take_from
take_complete_sentences buf = take_from (length buf) buf

-- `FlushRemainder`, whose buffer is empty behind it.
unfoldable pub flush_remainder : Text → Text
unfolding trim_space
flush_remainder buf = trim_space buf

-- `Sentencize`, with the deltas that come in until the input closes.
unfoldable pub sentencize_from : Text → List Text → List Text
unfolding take_complete_sentences flush_remainder
sentencize_from buf [] = let tail = flush_remainder buf in if is_empty tail then [] else tail ∷ []
sentencize_from buf (delta ∷ deltas) =
    let taken = take_complete_sentences (buf ++ delta) in taken.0 ++ sentencize_from taken.1 deltas

unfoldable pub sentencize : List Text → List Text
unfolding sentencize_from
sentencize deltas = sentencize_from [] deltas
