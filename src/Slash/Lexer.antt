-- ===== src/Slash/Lexer.antt =====
-- internal/kernel/slash/parse.go: the lexer. It reads words, quotes and escapes rune by rune.
pub mod RoundTrip
use maven.Base.{
  ℕ, Bool, true, false, ◌||◌, Option, none, some, List, [], ◌∷◌, ◌++◌, ◌==◌, if◌then◌else◌,
  is_empty,
}
use maven.Base.Result.{Result, ok, err}
use maven.Base.Text.{Text, is_space}

-- The variables of `lex`: the words so far, the buffer, the open quote, and a pending escape.
pub record LexState : Type 0 where
  pub tokens : List Text
  pub buf : Text
  pub quote : Option ℕ
  pub escaped : Bool

pub data LexError : Type 0 where
  dangling_escape unclosed_quote : LexError

abbrev pub lex_start : LexState
lex_start = record { tokens = []; buf = []; quote = none; escaped = false }

-- `emit`.
unfoldable pub emit : LexState → LexState
emit s = if is_empty s.buf then s else record s { tokens = s.tokens ++ s.buf ∷ []; buf = [] }

abbrev pub write_rune : ℕ → LexState → LexState
write_rune r s = record s { buf = s.buf ++ r ∷ [] }

-- One round of the loop of `lex`.
unfoldable pub lex_rune : LexState → ℕ → LexState
lex_rune s r =
    if s.escaped
    then record (write_rune r s) { escaped = false }
    else if r == b'\\'
    then record s { escaped = true }
    else elim s.quote [
      | some q ↦ if r == q then record s { quote = none } else write_rune r s
      | none ↦
          if r == b'\'' || r == b'"'
          then record s { quote = some r }
          else if is_space r
          then emit s
          else write_rune r s
    ]

unfoldable pub lex_runes : LexState → Text → LexState
lex_runes s [] = s
lex_runes s (r ∷ line) = lex_runes (lex_rune s r) line

-- The checks of `lex` behind the loop.
unfoldable pub lex_end : LexState → Result LexError (List Text)
lex_end s =
    if s.escaped
    then err dangling_escape
    else elim s.quote [ some q ↦ err unclosed_quote | none ↦ ok (emit s).tokens ]

-- `lex`.
unfoldable pub lex : Text → Result LexError (List Text)
unfolding lex_end lex_runes lex_rune emit is_space
lex line = lex_end (lex_runes lex_start line)
