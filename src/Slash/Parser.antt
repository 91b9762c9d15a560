-- ===== src/Slash/Parser.antt =====
-- internal/kernel/slash/parse.go: commands, their flags, and the lines of a message.
pub mod Commands
use maven.Base.{
  ℕ, Bool, true, false, not, ◌&&◌, ◌||◌, Option, none, some, List, [], ◌∷◌, ◌++◌, ◌+◌, ◌==◌, leb,
  if◌then◌else◌, is_empty,
}
use maven.Base.Assoc.{insert}
use maven.Base.Result.{Result, ok, err}
use maven.Base.Text.{
  Text, codes, trim_space, has_prefix, strip_prefix, trim_prefix, cut, text_eq, split_on,
}
use maven.Base.Unicode.{Unicode, to_lower}
use maven.Slash.Lexer.{LexError, lex}

abbrev pub Flags : Type 0
Flags = List (Text × Text)

-- `Invocation`; no flags is a nil map.
pub record Invocation : Type 0 where
  pub name : Text
  pub args : List Text
  pub flags : Flags
  pub raw : Text
  pub position : ℕ

pub data CommandError : Type 0 where
  lexer : LexError → CommandError
  invalid_command : CommandError
  invalid_name invalid_flag : Text → CommandError

-- The errors of `Parse`; a command's error has its line number.
pub data ParseError : Type 0 where
  no_command : ParseError
  at_line : ℕ → CommandError → ParseError

-- `validName`.
unfoldable pub name_rune : ℕ → Bool
name_rune r = r == b'-' || r == b'_' || (leb b'a' r && leb r b'z') || (leb b'0' r && leb r b'9')

unfoldable pub name_runes : Text → Bool
unfolding name_rune
name_runes [] = true
name_runes (r ∷ name) = name_rune r && name_runes name

unfoldable pub valid_name : Text → Bool
unfolding name_runes
valid_name name = not (is_empty name) && name_runes name

-- `parseFlag`.
unfoldable pub parse_flag : Text → Text × (Text × Bool)
unfolding trim_prefix cut trim_space
parse_flag token = elim (cut (codes "=") (trim_prefix (codes "--") token)) [
  | some (key, value) ↦ (trim_space key, (value, true))
  | none ↦ (trim_space (trim_prefix (codes "--") token), ([], false))
]

-- A flag without a value is "true".
unfoldable pub or_true : Text → Text
or_true value = if is_empty value then codes "true" else value

-- The check of `Parse` behind its loop.
abbrev pub some_command : Result ParseError (List Invocation) → Result ParseError (List Invocation)
some_command (err e) = err e
some_command (ok []) = err no_command
some_command (ok (inv ∷ more)) = ok (inv ∷ more)

module _ (u : Unicode) where
  -- The loop of `parseLine` over the words behind the name. A flag without "=" takes the next word
  -- as its value unless that starts with "-".
  unfoldable pub parse_tokens :
      Flags → List Text → List Text → Result CommandError (Flags × List Text)
  parse_tokens flags args [] = ok (flags, args)
  parse_tokens flags args (token ∷ []) =
      let flag = parse_flag token in
      let key = to_lower u flag.0 in
      if has_prefix (codes "--") token
      then (if is_empty key
          then err (invalid_flag token)
          else ok (insert key (or_true flag.1.0) flags, args))
      else ok (flags, args ++ token ∷ [])
  parse_tokens flags args (token ∷ next ∷ tokens) =
      let flag = parse_flag token in
      let key = to_lower u flag.0 in
      let taken = parse_tokens (insert key (or_true next) flags) args tokens in
      let alone = parse_tokens (insert key (or_true flag.1.0) flags) args (next ∷ tokens) in
      let plain = parse_tokens flags (args ++ token ∷ []) (next ∷ tokens) in
      if has_prefix (codes "--") token
      then (if is_empty key
          then err (invalid_flag token)
          else if not flag.1.1 && not (has_prefix (codes "-") next)
          then taken
          else alone)
      else plain

  abbrev pub with_words :
      Text → Result CommandError (Flags × List Text) → Result CommandError Invocation
  with_words name (err e) = err e
  with_words name (ok (flags, args)) =
      ok (record { name = name; args = args; flags = flags; raw = []; position = 0 })

  -- `parseLine`.
  unfoldable pub parse_words : List Text → Result CommandError Invocation
  unfolding parse_tokens parse_flag or_true valid_name has_prefix trim_prefix to_lower
  parse_words [] = err invalid_command
  parse_words (name ∷ tokens) =
      let normalized = to_lower u (trim_prefix (codes "/") name) in
      if not (has_prefix (codes "/") name)
      then err invalid_command
      else if is_empty normalized || not (valid_name normalized)
      then err (invalid_name name)
      else with_words normalized (parse_tokens [] [] tokens)

  unfoldable pub parse_line : Text → Result CommandError Invocation
  unfolding parse_words lex
  parse_line line = elim (lex line) [ err e ↦ err (lexer e) | ok tokens ↦ parse_words tokens ]

  -- The loop of `Parse`, at a line's number.
  unfoldable pub parse_lines : ℕ → List Text → Result ParseError (List Invocation)
  parse_lines n [] = ok []
  parse_lines n (line ∷ lines) =
      let trimmed = trim_space line in
      let rest = parse_lines (n + 1) lines in
      if is_empty trimmed || not (has_prefix (codes "/") trimmed)
      then rest
      else elim (parse_line trimmed) [
        | err e ↦ err (at_line n e)
        | ok inv ↦ elim rest [
          | err e ↦ err e
          | ok more ↦ ok (record inv { position = n; raw = trimmed } ∷ more)
        ]
      ]

  -- `Parse`.
  unfoldable pub parse : Text → Result ParseError (List Invocation)
  unfolding parse_lines parse_line split_on trim_space has_prefix
  parse input = some_command (parse_lines 1 (split_on b'\n' [] input))
