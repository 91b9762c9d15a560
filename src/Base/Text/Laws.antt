-- ===== src/Base/Text/Laws.antt =====
-- Laws of comparison, prefixes and `strings.Cut`.
use Prim.Native.Nat.{ℕ}
use mathlib.Core.Path.{◌≡◌, refl, subst, ap₂}
use mathlib.Core.Logic.{◌↔◌, ◌≢◌, inl, inr}
use mathlib.Core.Bool.{true, false}
use mathlib.Core.Option
use mathlib.Core.Option.{Option, none, some}
use mathlib.Core.List.{[], ◌∷◌, ◌++◌, append-nil}
use native.Mathlib.Omega.{arith}
use maven.Base.Tests.{◌==◌, Option-cases, Bool-cases, ==_iff}
use maven.Base.Lists.{All}
use maven.Base.Text.{Text, text_eq, strip_prefix, cut}

pub text_eq_iff : (s t : Text) → (text_eq s t ≡ true) ↔ (s ≡ t)
unfolding text_eq
text_eq_iff [] [] = ground arith
text_eq_iff [] (d ∷ t) = ground arith
text_eq_iff (c ∷ s) [] = ground arith
text_eq_iff (c ∷ s) (d ∷ t) = ground (arith, text_eq_iff s t)

pub text_eq_refl : (s : Text) → text_eq s s ≡ true
text_eq_refl s = (text_eq_iff s s).1 refl

pub text_eq_ne : (s t : Text) → s ≢ t → text_eq s t ≡ false
text_eq_ne s t h = ground (arith, text_eq_iff s t)

pub strip_prefix_eq : (p s rest : Text) → strip_prefix p s ≡ some rest → s ≡ p ++ rest
unfolding strip_prefix
strip_prefix_eq [] s rest h = cc
strip_prefix_eq (c ∷ p) [] rest h = cc
strip_prefix_eq (c ∷ p) (d ∷ s) rest h = ground (arith, strip_prefix_eq p s rest)

pub strip_prefix-append : (p rest : Text) → strip_prefix p (p ++ rest) ≡ some rest
unfolding strip_prefix
strip_prefix-append [] rest = refl
strip_prefix-append (c ∷ p) rest = ground (arith, strip_prefix-append p rest)

pub cut_eq :
    (sep s before after : Text) → cut sep s ≡ some (before, after) → s ≡ before ++ (sep ++ after)
unfolding cut
cut_eq sep [] before after h = ground (arith, strip_prefix_eq sep [] after)
cut_eq sep (c ∷ s) before after h = elim (Option-cases (cut sep s)) [
  | inl e ↦ ground (arith, strip_prefix_eq sep (c ∷ s) after)
  | inr ((b, a), e) ↦ ground (arith, strip_prefix_eq sep (c ∷ s) after, cut_eq sep s b a)
]

cut_here : (d : ℕ) (sep after : Text) → cut (d ∷ sep) ((d ∷ sep) ++ after) ≡ some ([], after)
unfolding cut
cut_here d sep after = rw (strip_prefix-append (d ∷ sep) after, cut)

-- Before the first character of the separator nothing is found.
pub cut_skip :
    (d : ℕ) (sep before s : Text)
    → All (λ c. c ≢ d) before
    → cut (d ∷ sep) (before ++ s) ≡ Option.map (λ r. (before ++ r.0, r.1)) (cut (d ∷ sep) s)
unfolding cut strip_prefix
cut_skip d sep [] s h = elim (Option-cases (cut (d ∷ sep) s)) [ inl e ↦ rw e | inr (r, e) ↦ rw e ]
cut_skip d sep (c ∷ before) s (hc, hs) = elim (Option-cases (cut (d ∷ sep) s)) [
  | inl e ↦ ground (arith, cut_skip d sep before s hs, e)
  | inr (r, e) ↦ ground (arith, cut_skip d sep before s hs, e)
]

-- A separator is found where its first character stands first.
pub cut_found :
    (d : ℕ) (sep before after : Text)
    → All (λ c. c ≢ d) before
    → cut (d ∷ sep) (before ++ ((d ∷ sep) ++ after)) ≡ some (before, after)
cut_found d sep before after h =
    rw (cut_skip d sep before ((d ∷ sep) ++ after) h, cut_here d sep after)
      (rw (append-nil before) refl)

-- A prefix with a character that the text lacks.
pub strip_prefix-none {ℓ} :
    (P : ℕ → Type ℓ) (p s : Text)
    → ((rest : Text) → ¬ All P (p ++ rest))
    → All P s
    → strip_prefix p s ≡ none
strip_prefix-none P p s excluded h = elim (Option-cases (strip_prefix p s)) [
  | inl e ↦ e
  | inr (rest, e) ↦ absurd (excluded rest (subst (All P) (strip_prefix_eq p s rest e) h))
]

-- Two texts up to a first character `d` that differ.
pub strip_prefix_ne :
    (d : ℕ) (p s rest : Text)
    → All (λ c. c ≢ d) p
    → All (λ c. c ≢ d) s
    → p ≢ s
    → strip_prefix (p ++ d ∷ []) (s ++ d ∷ rest) ≡ none
unfolding strip_prefix
strip_prefix_ne d [] [] rest hp hs ne = absurd (ne refl)
strip_prefix_ne d [] (c ∷ s) rest hp hs ne = ground arith
strip_prefix_ne d (c ∷ p) [] rest hp hs ne = ground arith
strip_prefix_ne d (c ∷ p) (b ∷ s) rest hp hs ne = elim (Bool-cases (c == b)) [
  | inl same ↦
      rw same (strip_prefix_ne d p s rest hp.1 hs.1 (λ e. ne (ap₂ ◌∷◌ ((==_iff c b).0 same) e)))
  | inr other ↦ rw other
]

pub cut-none : (d : ℕ) (sep s : Text) → All (λ c. c ≢ d) s → cut (d ∷ sep) s ≡ none
unfolding cut strip_prefix
cut-none d sep [] h = refl
cut-none d sep (c ∷ s) (hc, hs) = ground (arith, cut-none d sep s hs)
