-- ===== src/Base/Unicode.antt =====
-- The Unicode tables of package unicode beyond ASCII are a parameter; ASCII is written out.
use Prim.Native.Nat.{ℕ, ◌+◌}
use mathlib.Core.Bool.{Bool, false, ◌&&◌, ◌||◌}
use mathlib.Core.List.{map}
use maven.Base.Tests.{ltb, leb, if◌then◌else◌}
use maven.Base.Text.{Text}

pub record Unicode : Type 0 where
  pub lower : ℕ → ℕ
  pub letter : ℕ → Bool
  pub digit : ℕ → Bool

-- `unicode.ToLower`.
unfoldable pub lower_rune : Unicode → ℕ → ℕ
lower_rune u c = if ltb c 0x80 then (if leb b'A' c && leb c b'Z' then c + 32 else c) else u.lower c

-- `strings.ToLower`, rune by rune.
unfoldable pub to_lower : Unicode → Text → Text
unfolding lower_rune
to_lower u = map (lower_rune u)

-- `unicode.IsLetter` and `unicode.IsDigit`.
unfoldable pub is_letter : Unicode → ℕ → Bool
is_letter u c =
    if ltb c 0x80 then (leb b'a' c && leb c b'z') || (leb b'A' c && leb c b'Z') else u.letter c

unfoldable pub is_digit : Unicode → ℕ → Bool
is_digit u c = if ltb c 0x80 then leb b'0' c && leb c b'9' else u.digit c

-- A table with no letter beyond ASCII.
abbrev pub ascii_only : Unicode
ascii_only = record { lower = λ c. c; letter = λ c. false; digit = λ c. false }
