-- ===== src/Base/Decimal.antt =====
-- `strconv.FormatInt` of a number that is not negative, and what `strconv.ParseInt(s, 10, 64)`
-- accepts.
use maven.Base.Tests.{leb, ltb, ◌==◌, if◌then◌else◌, Bool-cases}
use maven.Base.Lists.{All}
use maven.Base.Text.{Text, byte_len, rune_len}
use Prim.Native.Nat.{ℕ, zero, suc, ◌+◌, ◌-◌, ◌*◌, ◌/◌, ◌%◌, ◌^◌, ◌≤◌, ◌<◌}
use mathlib.Core.Path.{◌≡◌, refl, subst}
use mathlib.Core.Logic.{◌≢◌, inl, inr}
use mathlib.Core.Bool.{Bool, true, false, ◌&&◌}
use mathlib.Core.Option.{Option, none, some}
use mathlib.Core.List.{[], ◌∷◌}
use native.Mathlib.Omega.{arith}
use native.Mathlib.Nat.{pow-suc}

-- Digits are put in front of `out` until the number is below ten; `out` alone if the fuel runs out.
unfoldable pub format_from : ℕ → ℕ → Text → Text
format_from zero n out = out
format_from (suc fuel) n out =
    let rest = format_from fuel (n / 10) ((b'0' + n % 10) ∷ out) in
    if ltb n 10 then (b'0' + n) ∷ out else rest

unfoldable pub format_int : ℕ → Text
unfolding format_from
format_int n = format_from (suc n) n []

abbrev pub IsDigit : ℕ → Type 0
IsDigit c = (b'0' ≤ c) × (c ≤ b'9')

-- The number that digits spell behind `n`; none at another character.
unfoldable pub value_from : ℕ → Text → Option ℕ
value_from n [] = some n
value_from n (c ∷ s) =
    let rest = value_from (n * 10 + (c - b'0')) s in if leb b'0' c && leb c b'9' then rest else none

-- One digit or more, of a value up to `limit`.
unfoldable pub is_below : ℕ → Text → Bool
unfolding value_from
is_below limit [] = false
is_below limit (c ∷ s) = elim (value_from 0 (c ∷ s)) [ none ↦ false | some v ↦ leb v limit ]

-- Whether `strconv.ParseInt(s, 10, 64)` gives no error.
unfoldable pub is_int64 : Text → Bool
unfolding is_below
is_int64 [] = false
is_int64 (c ∷ s) =
    if c == b'+'
    then is_below (2 ^ 63 - 1) s
    else if c == b'-'
    then is_below (2 ^ 63) s
    else is_below (2 ^ 63 - 1) (c ∷ s)

value-format :
    (fuel n : ℕ) (out : Text) → n < fuel → value_from 0 (format_from fuel n out) ≡ value_from n out
unfolding value_from format_from
value-format zero n out h = absurd (omega arith)
value-format (suc fuel) n out h = ground (arith, value-format fuel (n / 10) ((b'0' + n % 10) ∷ out))

-- The text begins with a digit.
abbrev Starts : Text → Type 0
Starts [] = ⊥
Starts (c ∷ s) = IsDigit c

format-Starts : (fuel n : ℕ) (out : Text) → n < fuel → Starts (format_from fuel n out)
unfolding format_from
format-Starts zero n out h = absurd (omega arith)
format-Starts (suc fuel) n out h = elim (Bool-cases (ltb n 10)) [
  | inl small ↦ rw small (ground arith)
  | inr large ↦ rw large (format-Starts fuel (n / 10) ((b'0' + n % 10) ∷ out) (ground arith))
]

is_int64_of_value :
    (s : Text) (n : ℕ) → Starts s → value_from 0 s ≡ some n → n < 2 ^ 63 → is_int64 s ≡ true
unfolding is_int64 is_below
is_int64_of_value [] n st e h = absurd st
is_int64_of_value (c ∷ s) n st e h = ground arith

pub format_int-is_int64 : (n : ℕ) → n < 2 ^ 63 → is_int64 (format_int n) ≡ true
unfolding format_int value_from
format_int-is_int64 n h =
    is_int64_of_value (format_from (suc n) n []) n (format-Starts (suc n) n [] (omega arith))
      (value-format (suc n) n [] (omega arith)) h

pub format_int-ne-nil : (n : ℕ) → format_int n ≢ []
unfolding format_int
format_int-ne-nil n e = subst Starts e (format-Starts (suc n) n [] (omega arith))

-- Every character of a printed number is a digit.
format-digits : (fuel n : ℕ) (out : Text) → All IsDigit out → All IsDigit (format_from fuel n out)
unfolding format_from
format-digits zero n out h = h
format-digits (suc fuel) n out h = elim (Bool-cases (ltb n 10)) [
  | inl small ↦ rw small (ground arith, h)
  | inr large ↦ rw large (format-digits fuel (n / 10) ((b'0' + n % 10) ∷ out) (omega arith, h))
]

pub format_int-digits : (n : ℕ) → All IsDigit (format_int n)
unfolding format_int
format_int-digits n = format-digits (suc n) n [] tt

digit_len : (d : ℕ) → d < 10 → rune_len (b'0' + d) ≡ 1
unfolding rune_len
digit_len d h = ground arith

-- A number below 10 ^ k has at most k digits, one byte each.
byte_len-cons : (c : ℕ) (s : Text) → byte_len (c ∷ s) ≡ rune_len c + byte_len s
unfolding byte_len
byte_len-cons c s = refl

format-byte_len :
    (k fuel n : ℕ) (out : Text)
    → n < 10 ^ suc k
    → byte_len (format_from fuel n out) ≤ suc k + byte_len out
unfolding format_from
format-byte_len k zero n out h = omega arith
format-byte_len zero (suc fuel) n out h = ground (arith, digit_len n, byte_len-cons (b'0' + n) out)
format-byte_len (suc k) (suc fuel) n out h = ground (
  arith,
  pow-suc 10 (suc k),
  format-byte_len k fuel (n / 10) ((b'0' + n % 10) ∷ out),
  digit_len (n % 10),
  digit_len n,
  byte_len-cons (b'0' + n) out,
  byte_len-cons (b'0' + n % 10) out,
)

-- A nanosecond time below 2 ^ 63 takes at most 19 bytes.
pub format_int-byte_len : (n : ℕ) → n < 2 ^ 63 → byte_len (format_int n) ≤ 19
unfolding format_int byte_len
format_int-byte_len n h = format-byte_len 18 (suc n) n [] (omega arith)
