-- ===== src/Base/Text.antt =====
-- Go strings as lists of code points, with what the program uses of the packages strings, unicode
-- and unicode/utf8. A valid UTF-8 string is the list of its code points.
pub mod Laws
pub mod Trimming
use Prim.Native.Nat.{ℕ, ◌+◌}
use Prim.Native.Char.{code}
use Prim.Native.String.{String}
use mathlib.Core.Path.{◌≡◌, refl, sym, ◌∙◌, subst, ap₂}
use mathlib.Core.Logic.{◌↔◌, ◌≢◌, inl, inr}
use mathlib.Core.Bool.{Bool, true, false, ◌&&◌, ◌||◌, not}
use mathlib.Core.Option
use mathlib.Core.Option.{Option, none, some}
use mathlib.Core.List.{List, [], ◌∷◌, ◌++◌, append-nil}
use native.Mathlib.Omega.{arith}
use maven.Base.Tests.{ltb, leb, ◌==◌, if◌then◌else◌, is_some, Option-cases, Bool-cases, ==_iff}
use maven.Base.Lists.{is_empty, All}

abbrev pub Text : Type 0
Text = List ℕ

-- The code points of a literal.
abbrev pub codes : String → Text
codes String.[] = []
codes (String.◌∷◌ c s) = code c ∷ codes s

-- `utf8.RuneLen` of a code point, and `len` of a string.
unfoldable pub rune_len : ℕ → ℕ
rune_len c = if ltb c 0x80 then 1 else if ltb c 0x800 then 2 else if ltb c 0x10000 then 3 else 4

unfoldable pub byte_len : Text → ℕ
unfolding rune_len
byte_len [] = 0
byte_len (c ∷ s) = rune_len c + byte_len s

-- `unicode.IsSpace`.
unfoldable pub is_space : ℕ → Bool
is_space c =
    (leb 9 c && leb c 13)
    || c == 32
    || c == 0x85
    || c == 0xa0
    || c == 0x1680
    || (leb 0x2000 c && leb c 0x200a)
    || c == 0x2028
    || c == 0x2029
    || c == 0x202f
    || c == 0x205f
    || c == 0x3000

-- `strings.TrimSpace`.
unfoldable pub trim_left : Text → Text
trim_left [] = []
trim_left (c ∷ s) = if is_space c then trim_left s else c ∷ s

unfoldable pub trim_right : Text → Text
trim_right [] = []
trim_right (c ∷ s) = let rest = trim_right s in if is_space c && is_empty rest then [] else c ∷ rest

unfoldable pub trim_space : Text → Text
unfolding trim_left trim_right is_space
trim_space s = trim_right (trim_left s)

-- `==` on strings.
unfoldable pub text_eq : Text → Text → Bool
text_eq [] [] = true
text_eq [] (d ∷ t) = false
text_eq (c ∷ s) [] = false
text_eq (c ∷ s) (d ∷ t) = c == d && text_eq s t

-- `strings.HasPrefix` with `strings.TrimPrefix`: what follows the prefix, or none.
unfoldable pub strip_prefix : Text → Text → Option Text
strip_prefix [] s = some s
strip_prefix (c ∷ p) [] = none
strip_prefix (c ∷ p) (d ∷ s) = if c == d then strip_prefix p s else none

unfoldable pub has_prefix : Text → Text → Bool
unfolding strip_prefix
has_prefix p s = is_some (strip_prefix p s)

unfoldable pub trim_prefix : Text → Text → Text
unfolding strip_prefix
trim_prefix p s = elim (strip_prefix p s) [ none ↦ s | some rest ↦ rest ]

-- `strings.Cut`: what stands before and after the first occurrence.
unfoldable pub cut : Text → Text → Option (Text × Text)
unfolding strip_prefix
cut sep [] = Option.map (λ rest. ([], rest)) (strip_prefix sep [])
cut sep (c ∷ s) = elim (strip_prefix sep (c ∷ s)) [
  | some rest ↦ some ([], rest)
  | none ↦ Option.map (λ r. (c ∷ r.0, r.1)) (cut sep s)
]

-- `strings.Split` at one character; there is always a last part.
unfoldable pub split_on : ℕ → Text → Text → List Text
split_on sep cur [] = cur ∷ []
split_on sep cur (c ∷ s) =
    let next = split_on sep [] s in
    let more = split_on sep (cur ++ c ∷ []) s in if c == sep then cur ∷ next else more

-- `strings.Fields`; `cur` is the field being read.
unfoldable pub fields_from : Text → Text → List Text
fields_from cur [] = if is_empty cur then [] else cur ∷ []
fields_from cur (c ∷ s) =
    let skip = fields_from [] s in
    let more = fields_from (cur ++ c ∷ []) s in
    if is_space c then (if is_empty cur then skip else cur ∷ skip) else more

unfoldable pub fields : Text → List Text
unfolding fields_from is_space
fields s = fields_from [] s

-- `strings.Join`.
unfoldable pub join : Text → List Text → Text
join sep [] = []
join sep (t ∷ []) = t
join sep (t ∷ u ∷ ts) = t ++ (sep ++ join sep (u ∷ ts))
