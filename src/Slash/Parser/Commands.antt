-- ===== src/Slash/Parser/Commands.antt =====
-- internal/kernel/slash/parse.go: where the commands of a message come from.
use maven.Base.{
  ℕ, suc, Bool, true, false, not, ◌||◌, some, List, [], ◌∷◌, ◌+◌, ◌≡◌, refl, subst, ap, arith, All,
  All-map, get_elem?, ◌≢◌, keep, length, inl, inr, Bool-cases, is_empty,
}
use maven.Base.Result.{Result, ok, err, Result-cases}
use maven.Base.Text.{Text, codes, trim_space, has_prefix, strip_prefix, trim_prefix, split_on}
use maven.Base.Unicode.{Unicode, to_lower}
use maven.Slash.Lexer.{lex}
use maven.Slash.Parser.{
  Invocation, CommandError, ParseError, at_line, Flags, valid_name, with_words, parse_words,
  parse_line, parse_lines, parse, some_command,
}

no_slash :
    (t : Text)
    → (is_empty t || not (has_prefix (codes "/") t)) ≡ true
    → has_prefix (codes "/") t ≡ false
unfolding has_prefix strip_prefix
no_slash [] h = refl
no_slash (c ∷ t) h = ground arith

-- A result whose command, if any, has a valid name.
abbrev NamedOk : Result CommandError Invocation → Type 0
NamedOk (err e) = Unit
NamedOk (ok inv) = valid_name inv.name ≡ true

module _ (u : Unicode) where
  with_words-NamedOk :
      (name : Text) (r : Result CommandError (Flags × List Text))
      → valid_name name ≡ true
      → NamedOk (with_words u name r)
  with_words-NamedOk name (err e) v = tt
  with_words-NamedOk name (ok (flags, args)) v = v

  parse_words-NamedOk : (tokens : List Text) → NamedOk (parse_words u tokens)
  unfolding parse_words
  parse_words-NamedOk [] = tt
  parse_words-NamedOk (name ∷ tokens) =
      let normalized = to_lower u (trim_prefix (codes "/") name) in
      elim (Bool-cases (has_prefix (codes "/") name)) [
        | inr p ↦ rw p tt
        | inl p ↦ elim (Bool-cases (is_empty normalized || not (valid_name normalized))) [
          | inl v ↦ rw (p, v) tt
          | inr v ↦ rw (p, v) (with_words-NamedOk normalized _ (ground arith))
        ]
      ]

  parse_line-NamedOk : (line : Text) → NamedOk (parse_line u line)
  unfolding parse_line
  parse_line-NamedOk line = elim (Result-cases (lex line)) [
    | inl (e, q) ↦ rw (parse_line, q) tt
    | inr (tokens, q) ↦ rw (parse_line, q) (parse_words-NamedOk tokens)
  ]

  -- A command at the line of its number, counted from `n`.
  pub record IsCommand (n : ℕ) (lines : List Text) (inv : Invocation) : Type 0 where
    pub index : ℕ
    pub line : Text
    pub numbered : inv.position ≡ n + index
    pub there : get_elem? lines index ≡ some line
    pub trimmed : inv.raw ≡ trim_space line
    pub slashed : has_prefix (codes "/") inv.raw ≡ true
    pub named : valid_name inv.name ≡ true

  IsCommand-later :
      (n : ℕ) (line : Text) (lines : List Text) (inv : Invocation)
      → IsCommand (n + 1) lines inv
      → IsCommand n (line ∷ lines) inv
  IsCommand-later n line lines inv c = record {
    index = suc c.index;
    line = c.line;
    numbered = omega (arith, c.numbered);
    there = c.there;
    trimmed = c.trimmed;
    slashed = c.slashed;
    named = c.named;
  }

  -- The lines that begin a command.
  abbrev pub slash_line : Text → Bool
  slash_line line = has_prefix (codes "/") (trim_space line)

  abbrev Commands : ℕ → List Text → Result ParseError (List Invocation) → Type 0
  Commands n lines (err e) = Unit
  Commands n lines (ok invs) =
      All (IsCommand n lines) invs × (length invs ≡ length (keep slash_line lines))

  skipped-Commands :
      (n : ℕ) (line : Text) (lines : List Text) (r : Result ParseError (List Invocation))
      → slash_line line ≡ false
      → Commands (n + 1) lines r
      → Commands n (line ∷ lines) r
  skipped-Commands n line lines (err e) s h = tt
  skipped-Commands n line lines (ok invs) s h =
      rw s (All-map (IsCommand-later n line lines) invs h.0, h.1)

  abbrev joined :
      ℕ
      → Text
      → Result CommandError Invocation
      → Result ParseError (List Invocation)
      → Result ParseError (List Invocation)
  joined n trimmed r rest = elim r [
    | err e ↦ err (at_line n e)
    | ok inv ↦ elim rest [
      | err e ↦ err e
      | ok more ↦ ok (record inv { position = n; raw = trimmed } ∷ more)
    ]
  ]

  joined-Commands :
      (n : ℕ) (line : Text) (lines : List Text) (r : Result CommandError Invocation)
      (rest : Result ParseError (List Invocation))
      → slash_line line ≡ true
      → NamedOk r
      → Commands (n + 1) lines rest
      → Commands n (line ∷ lines) (joined n (trim_space line) r rest)
  joined-Commands n line lines (err e) rest s v h = tt
  joined-Commands n line lines (ok inv) (err e) s v h = tt
  joined-Commands n line lines (ok inv) (ok more) s v h = rw s (
    (
      record {
        index = 0;
        line = line;
        numbered = omega arith;
        there = refl;
        trimmed = refl;
        slashed = s;
        named = v;
      },
      All-map (IsCommand-later n line lines) more h.0,
    ),
    ap suc h.1,
  )

  lines-Commands : (n : ℕ) (lines : List Text) → Commands n lines (parse_lines u n lines)
  unfolding parse_lines
  lines-Commands n [] = (tt, refl)
  lines-Commands n (line ∷ lines) =
      elim (Bool-cases
        (is_empty (trim_space line) || not (has_prefix (codes "/") (trim_space line)))) [
          | inl e ↦
              rw e (skipped-Commands n line lines _ (no_slash _ e) (lines-Commands (n + 1) lines))
          | inr e ↦ rw e (
              joined-Commands n line lines _ _ (ground arith) (parse_line-NamedOk (trim_space line))
                (lines-Commands (n + 1) lines))
        ]

  abbrev Parsed : List Text → Result ParseError (List Invocation) → Type 0
  Parsed lines (err e) = Unit
  Parsed lines (ok invs) = (invs ≢ []) × Commands 1 lines (ok invs)

  some_command-Parsed :
      (lines : List Text) (r : Result ParseError (List Invocation))
      → Commands 1 lines r
      → Parsed lines (some_command r)
  some_command-Parsed lines (err e) c = tt
  some_command-Parsed lines (ok []) c = tt
  some_command-Parsed lines (ok (inv ∷ more)) c = (λ e. absurd (ground arith), c)

  -- If a message parses, it has a command, as many as lines that begin with a slash behind spaces,
  -- and each has the number and the trimmed text of such a line and a valid name.
  pub parse-Commands :
      (input : Text) (invs : List Invocation)
      → parse u input ≡ ok invs
      → (invs ≢ [])
        × (All (IsCommand 1 (split_on b'\n' [] input)) invs
            × (length invs ≡ length (keep slash_line (split_on b'\n' [] input))))
  unfolding parse
  parse-Commands input invs h =
      let lines = split_on b'\n' [] input in
      subst (Parsed lines) h (some_command-Parsed lines _ (lines-Commands 1 lines))
