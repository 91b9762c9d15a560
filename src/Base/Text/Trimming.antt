-- ===== src/Base/Text/Trimming.antt =====
-- Laws of `strings.TrimSpace`.
use Prim.Native.Nat.{ℕ}
use mathlib.Core.Path.{◌≡◌, refl, sym, ◌∙◌, subst}
use mathlib.Core.Logic.{◌≢◌, inl, inr}
use mathlib.Core.Bool.{Bool, true, false, not, ◌&&◌}
use mathlib.Core.List.{[], ◌∷◌, ◌++◌}
use native.Mathlib.Omega.{arith}
use maven.Base.Lists.{All}
use maven.Base.Tests.{Bool-cases, if◌then◌else◌}
use maven.Base.Lists.{is_empty}
use maven.Base.Text.{Text, trim_left, trim_right, trim_space, is_space}

-- Text that has no white space at its ends.
abbrev pub IsTrimmed : Text → Type 0
IsTrimmed s = trim_space s ≡ s

-- The text is empty or begins with no space.
abbrev pub head_ok : Text → Bool
head_ok [] = true
head_ok (c ∷ s) = not (is_space c)

trim_left-head : (s : Text) → head_ok (trim_left s) ≡ true
unfolding trim_left
trim_left-head [] = refl
trim_left-head (c ∷ s) = ground (arith, trim_left-head s)

trim_left-keep : (s : Text) → head_ok s ≡ true → trim_left s ≡ s
unfolding trim_left
trim_left-keep [] h = refl
trim_left-keep (c ∷ s) h = ground arith

trim_right-head : (s : Text) → head_ok s ≡ true → head_ok (trim_right s) ≡ true
unfolding trim_right
trim_right-head [] h = refl
trim_right-head (c ∷ s) h = ground arith

trim_right_idem : (s : Text) → trim_right (trim_right s) ≡ trim_right s
unfolding trim_right
trim_right_idem [] = refl
trim_right_idem (c ∷ s) = ground (arith, trim_right_idem s)

pub trim_space-trim : (s : Text) → trim_space s ≡ trim_right (trim_left s)
unfolding trim_space
trim_space-trim s = refl

pub trim_space-IsTrimmed : (s : Text) → IsTrimmed (trim_space s)
trim_space-IsTrimmed s =
    let h = trim_right-head (trim_left s) (trim_left-head s) in
    rw (trim_space-trim, trim_space-trim s, trim_left-keep _ h) (trim_right_idem _)

-- A text with no space at all is trimmed.
trim_right-keep : (s : Text) → All (λ c. is_space c ≡ false) s → trim_right s ≡ s
unfolding trim_right
trim_right-keep [] _ = refl
trim_right-keep (c ∷ s) (hc, hs) = ground (arith, trim_right-keep s hs)

pub IsTrimmed-of_no_space : (s : Text) → All (λ c. is_space c ≡ false) s → IsTrimmed s
IsTrimmed-of_no_space [] _ = unfold trim_space in refl
IsTrimmed-of_no_space (c ∷ s) h =
    rw (trim_space-trim, trim_left-keep (c ∷ s) (ground arith)) (trim_right-keep (c ∷ s) h)

-- The text is empty or ends with no space.
abbrev pub last_ok : Text → Bool
last_ok [] = true
last_ok (c ∷ []) = not (is_space c)
last_ok (c ∷ d ∷ s) = last_ok (d ∷ s)

trim_right-keep_last : (s : Text) → last_ok s ≡ true → trim_right s ≡ s
unfolding trim_right
trim_right-keep_last [] h = refl
trim_right-keep_last (c ∷ []) h = ground arith
trim_right-keep_last (c ∷ d ∷ s) h = rw (trim_right-keep_last (d ∷ s) h) (ground arith)

pub IsTrimmed-of_ends : (s : Text) → head_ok s ≡ true → last_ok s ≡ true → IsTrimmed s
IsTrimmed-of_ends s h l = rw (trim_space-trim, trim_left-keep s h) (trim_right-keep_last s l)

pub IsTrimmed-head : (s : Text) → IsTrimmed s → head_ok s ≡ true
IsTrimmed-head s t =
    subst (λ u. head_ok u ≡ true) (sym (trim_space-trim s) ∙ t)
      (trim_right-head (trim_left s) (trim_left-head s))

-- What stands at the ends decides.
pub last_ok-append : (s : Text) (c : ℕ) (t : Text) → last_ok (s ++ c ∷ t) ≡ last_ok (c ∷ t)
last_ok-append [] c t = refl
last_ok-append (a ∷ []) c t = refl
last_ok-append (a ∷ b ∷ s) c t = last_ok-append (b ∷ s) c t

pub last_ok_of_no_space : (s : Text) → All (λ c. is_space c ≡ false) s → last_ok s ≡ true
last_ok_of_no_space [] h = refl
last_ok_of_no_space (c ∷ []) h = ground arith
last_ok_of_no_space (c ∷ d ∷ s) h = last_ok_of_no_space (d ∷ s) h.1

pub head_ok-append : (a b : Text) → a ≢ [] → head_ok a ≡ true → head_ok (a ++ b) ≡ true
head_ok-append [] b ne h = absurd (ne refl)
head_ok-append (c ∷ a) b ne h = h

pub append-ne-nil : (a b : Text) → a ≢ [] → a ++ b ≢ []
append-ne-nil [] b ne = absurd (ne refl)
append-ne-nil (c ∷ a) b ne = λ e. absurd (ground arith)

-- A text with a character that is no space is not blank.
trim_left-filled :
    (a : Text) (c : ℕ) (b : Text)
    → is_space c ≡ false
    → (x : Text) × (trim_left (a ++ c ∷ b) ≡ x ++ c ∷ b)
unfolding trim_left
trim_left-filled [] c b n = ([], rw (trim_left, n) refl)
trim_left-filled (d ∷ a) c b n = elim (Bool-cases (is_space d)) [
  | inl e ↦ let (x, q) = trim_left-filled a c b n in (x, rw (trim_left, e) q)
  | inr e ↦ (d ∷ a, rw (trim_left, e) refl)
]

trim_right-filled :
    (x : Text) (c : ℕ) (b : Text) → is_space c ≡ false → is_empty (trim_right (x ++ c ∷ b)) ≡ false
unfolding trim_right
trim_right-filled [] c b n = rw (trim_right, n) refl
trim_right-filled (d ∷ x) c b n = rw (trim_right, trim_right-filled x c b n) (kept (is_space d))
  where
    kept : (s : Bool) → is_empty (if s && false then [] else d ∷ trim_right (x ++ c ∷ b)) ≡ false
    kept true = refl
    kept false = refl

pub trim_space-filled :
    (a : Text) (c : ℕ) (b : Text) → is_space c ≡ false → trim_space (a ++ c ∷ b) ≢ []
unfolding trim_space
trim_space-filled a c b n =
    let (x, q) = trim_left-filled a c b n in
    subst (λ (t : Text). trim_right t ≢ []) (sym q) (not_empty _ (trim_right-filled x c b n))
  where
    not_empty : (t : Text) → is_empty t ≡ false → t ≢ []
    not_empty [] e = absurd (ground arith)
    not_empty (d ∷ t) e = λ q. absurd (ground arith)
