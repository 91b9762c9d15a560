-- ===== src/Slash/Lexer/RoundTrip.antt =====
-- internal/kernel/slash/parse.go: every list of words can be written as a line that the lexer reads
-- back.
use maven.Base.{
  ℕ, false, none, List, [], ◌∷◌, ◌++◌, ◌≡◌, ◌≢◌, refl, All, map, append_assoc, append-nil, ◌∙◌, ap,
}
use maven.Base.Result.{ok}
use maven.Base.Text.{Text, is_space, join}
use maven.Slash.Lexer.{LexState, emit, lex_rune, lex_runes, lex_end, lex}

-- A word with a backslash before every rune.
abbrev pub escape_word : Text → Text
escape_word [] = []
escape_word (c ∷ w) = b'\\' ∷ c ∷ escape_word w

-- The line of some words.
abbrev pub print_words : List Text → Text
print_words ws = join (b' ' ∷ []) (map escape_word ws)

abbrev between : List Text → Text → LexState
between tokens buf = record { tokens = tokens; buf = buf; quote = none; escaped = false }

lex-append : (s : LexState) (a b : Text) → lex_runes s (a ++ b) ≡ lex_runes (lex_runes s a) b
unfolding lex_runes
lex-append s [] b = refl
lex-append s (c ∷ a) b = lex-append (lex_rune s c) a b

lex-escaped :
    (tokens : List Text) (buf w : Text)
    → lex_runes (between tokens buf) (escape_word w) ≡ between tokens (buf ++ w)
unfolding lex_runes lex_rune
lex-escaped tokens buf [] = rw (append-nil buf) refl
lex-escaped tokens buf (c ∷ w) =
    lex-escaped tokens (buf ++ c ∷ []) w ∙ ap (between tokens) (append_assoc buf (c ∷ []) w)

lex-space :
    (tokens : List Text) (c : ℕ) (w rest : Text)
    → lex_runes (between tokens (c ∷ w)) (b' ' ∷ rest)
      ≡ lex_runes (between (tokens ++ (c ∷ w) ∷ []) []) rest
unfolding lex_runes lex_rune emit is_space
lex-space tokens c w rest = refl

lex-nothing : (tokens : List Text) → lex_end (lex_runes (between tokens []) []) ≡ ok tokens
unfolding lex_end lex_runes emit
lex-nothing tokens = refl

lex-last :
    (tokens : List Text) (c : ℕ) (w : Text)
    → lex_end (between tokens (c ∷ w)) ≡ ok (tokens ++ (c ∷ w) ∷ [])
unfolding lex_end emit
lex-last tokens c w = refl

lex-words :
    (tokens ws : List Text)
    → All (λ w. w ≢ []) ws
    → lex_end (lex_runes (between tokens []) (print_words ws)) ≡ ok (tokens ++ ws)
unfolding join
lex-words tokens [] h = rw (append-nil tokens) (lex-nothing tokens)
lex-words tokens ([] ∷ ws) h = absurd (h.0 refl)
lex-words tokens ((c ∷ w) ∷ []) h = ap lex_end (lex-escaped tokens [] (c ∷ w)) ∙ lex-last tokens c w
lex-words tokens ((c ∷ w) ∷ v ∷ ws) h =
    rw
      (
        lex-append (between tokens []) (escape_word (c ∷ w)) _,
        lex-escaped tokens [] (c ∷ w),
        lex-space tokens c w _,
      )
      (lex-words (tokens ++ (c ∷ w) ∷ []) (v ∷ ws) h.1
        ∙ ap ok (append_assoc tokens ((c ∷ w) ∷ []) (v ∷ ws)))

-- Any list of words that are not empty, each with a backslash before every rune and a space between
-- them, is read back by the lexer without an error.
pub lex-print_words : (ws : List Text) → All (λ w. w ≢ []) ws → lex (print_words ws) ≡ ok ws
unfolding lex
lex-print_words ws h = lex-words [] ws h
