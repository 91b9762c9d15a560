-- ===== src/Voice/Sentences/Spoken.antt =====
-- internal/kernel/voice/sentence.go and transforms.go: nothing of an answer is lost or left behind.
use maven.Base.{
  ℕ, zero, suc, true, false, ◌&&◌, Option, none, some, List, [], ◌∷◌, ◌++◌, ◌≤◌, ◌<◌, ◌≡◌, leb,
  length, refl, sym, ap, ◌∙◌, subst, arith, inl, inr, Bool-cases, Option-cases, All, All-append,
  concat, append_assoc, append-nil, if◌then◌else◌, is_empty,
}
use maven.Base.Text.{Text, is_space, trim_left, trim_right, trim_space}
use maven.Base.Text.Trimming.{IsTrimmed, trim_space-IsTrimmed, trim_space-trim}
use maven.Voice.Sentences.{
  is_end, ends_here, prefixed, find_sentence_end, cut_at_space, truncate_to_max_runes, is_blank,
  trim_blanks, add_sentence, take_long, take_from, take_complete_sentences, flush_remainder,
  sentencize_from, sentencize, max_speech_fragment_runes,
}

-- A text without its white space.
abbrev pub solid : Text → Text
solid [] = []
solid (c ∷ s) = if is_space c then solid s else c ∷ solid s

solid-append : (a b : Text) → solid (a ++ b) ≡ solid a ++ solid b
solid-append [] b = refl
solid-append (c ∷ a) b = elim (Bool-cases (is_space c)) [
  | inl e ↦ rw e (solid-append a b)
  | inr e ↦ rw e (ap (λ (t : Text). c ∷ t) (solid-append a b))
]

solid-trim_left : (s : Text) → solid (trim_left s) ≡ solid s
unfolding trim_left
solid-trim_left [] = refl
solid-trim_left (c ∷ s) = elim (Bool-cases (is_space c)) [
  | inl e ↦ rw e (solid-trim_left s)
  | inr e ↦ rw e (rw e refl)
]

solid-trim_right : (s : Text) → solid (trim_right s) ≡ solid s
unfolding trim_right
solid-trim_right [] = refl
solid-trim_right (c ∷ s) = ground (arith, solid-trim_right s)

solid-trim_space : (s : Text) → solid (trim_space s) ≡ solid s
solid-trim_space s = rw (trim_space-trim, solid-trim_right) (solid-trim_left s)

blank_is_space : (c : ℕ) → is_blank c ≡ true → is_space c ≡ true
unfolding is_blank is_space
blank_is_space c h = ground arith

solid-trim_blanks : (s : Text) → solid (trim_blanks s) ≡ solid s
unfolding trim_blanks
solid-trim_blanks [] = refl
solid-trim_blanks (c ∷ s) = elim (Bool-cases (is_blank c)) [
  | inl e ↦ rw (e, blank_is_space c e) (solid-trim_blanks s)
  | inr e ↦ rw e refl
]

cut_splits : (s : Text) → (cut_at_space s).0 ++ (cut_at_space s).1 ≡ s
unfolding cut_at_space
cut_splits [] = refl
cut_splits (c ∷ s) = elim (Bool-cases (is_space c)) [
  | inl e ↦ rw e refl
  | inr e ↦ rw e (ap (λ (t : Text). c ∷ t) (cut_splits s))
]

truncate_splits :
    (n : ℕ) (s : Text) → (truncate_to_max_runes n s).0 ++ (truncate_to_max_runes n s).1 ≡ s
unfolding truncate_to_max_runes
truncate_splits zero s = cut_splits s
truncate_splits (suc n) [] = refl
truncate_splits (suc n) (c ∷ s) = ap (λ (t : Text). c ∷ t) (truncate_splits n s)

-- No sentence ends in the text.
abbrev pub IsOngoing : Text → Type 0
IsOngoing s = find_sentence_end s ≡ none

IsOngoing-tail : (c : ℕ) (s : Text) → IsOngoing (c ∷ s) → IsOngoing s
unfolding find_sentence_end
IsOngoing-tail c s h = elim (Bool-cases (is_end c && ends_here s)) [
  | inl e ↦ absurd (ground arith)
  | inr e ↦ elim (Option-cases (find_sentence_end s)) [
    | inl f ↦ f
    | inr (p, f) ↦ absurd (ground arith)
  ]
]

IsOngoing-after : (a b : Text) → IsOngoing (a ++ b) → IsOngoing b
IsOngoing-after [] b h = h
IsOngoing-after (c ∷ a) b h = IsOngoing-after a b (IsOngoing-tail c (a ++ b) h)

trim_blanks-IsOngoing : (s : Text) → IsOngoing s → IsOngoing (trim_blanks s)
unfolding trim_blanks
trim_blanks-IsOngoing [] h = h
trim_blanks-IsOngoing (c ∷ s) h = elim (Bool-cases (is_blank c)) [
  | inl e ↦ rw e (trim_blanks-IsOngoing s (IsOngoing-tail c s h))
  | inr e ↦ rw e h
]

-- A found end splits the text behind a first character.
abbrev Splits : Text → Option (Text × Text) → Type 0
Splits s none = Unit
Splits s (some (before, after)) = (before ++ after ≡ s) × (length after < length s)

prefixed-Splits :
    (c : ℕ) (s : Text) (r : Option (Text × Text)) → Splits s r → Splits (c ∷ s) (prefixed c r)
prefixed-Splits c s none h = tt
prefixed-Splits c s (some (before, after)) (q, l) = (ap (λ (t : Text). c ∷ t) q, omega (arith, l))

find-Splits : (s : Text) → Splits s (find_sentence_end s)
unfolding find_sentence_end
find-Splits [] = tt
find-Splits (c ∷ s) = elim (Bool-cases (is_end c && ends_here s)) [
  | inl e ↦ rw (Splits, e) (refl, omega arith)
  | inr e ↦ rw (Splits, e) (prefixed-Splits c s (find_sentence_end s) (find-Splits s))
]

-- A spoken fragment has no white space at its ends and is not empty.
abbrev pub IsFragment : Text → Type 0
IsFragment t = IsTrimmed t × (is_empty t ≡ false)

add_sentence-AllFragments :
    (t : Text) (out : List Text) → All IsFragment out → All IsFragment (add_sentence t out)
add_sentence-AllFragments t out h = elim (Bool-cases (is_empty (trim_space t))) [
  | inl e ↦ rw e h
  | inr e ↦ rw e ((trim_space-IsTrimmed t, e), h)
]

solid-add :
    (t : Text) (out : List Text)
    → solid (concat (add_sentence t out)) ≡ solid t ++ solid (concat out)
solid-add t out = elim (Bool-cases (is_empty (trim_space t))) [
  | inl e ↦
      rw e
        (ap (λ (x : Text). x ++ solid (concat out)) (nothing (trim_space t) e ∙ solid-trim_space t))
  | inr e ↦ rw (e, solid-append, solid-trim_space) refl
]
  where
    nothing : (x : Text) → is_empty x ≡ true → [] ≡ solid x
    nothing [] q = refl
    nothing (c ∷ x) q = absurd (ground arith)

-- What a round of `TakeCompleteSentences` leaves: the fragments and the new buffer.
pub record Taken (s : Text) (r : List Text × Text) : Type 0 where
  pub conserved : solid (concat r.0) ++ solid r.1 ≡ solid s
  pub fragments : All IsFragment r.0
  pub settled : IsOngoing r.1

take_long-Taken : (s : Text) → IsOngoing s → Taken s (take_long s)
unfolding take_long
take_long-Taken s h = elim (Bool-cases (leb max_speech_fragment_runes (length s))) [
  | inr e ↦ rw (take_long, e) (record { conserved = refl; fragments = tt; settled = h })
  | inl e ↦
      let cut = truncate_to_max_runes max_speech_fragment_runes s in
      rw (take_long, e)
        (record {
          conserved =
              ap (λ (t : Text). t ++ solid (trim_blanks cut.1))
                (solid-add cut.0 [] ∙ append-nil (solid cut.0))
              ∙ (ap (λ (t : Text). solid cut.0 ++ t) (solid-trim_blanks cut.1)
                  ∙ (sym (solid-append cut.0 cut.1)
                      ∙ ap solid (truncate_splits max_speech_fragment_runes s)));
          fragments = add_sentence-AllFragments cut.0 [] tt;
          settled = trim_blanks-IsOngoing cut.1 (
              IsOngoing-after cut.0 cut.1
                (subst IsOngoing (sym (truncate_splits max_speech_fragment_runes s)) h));
        })
]

-- A round of the loop, whose rest is taken by the rounds behind it.
round-Taken :
    (s sent rest : Text) (r : List Text × Text)
    → sent ++ rest ≡ s
    → Taken rest r
    → Taken s (add_sentence sent r.0, r.1)
round-Taken s sent rest r q t = record {
  conserved =
      ap (λ (x : Text). x ++ solid r.1) (solid-add sent r.0)
      ∙ (append_assoc (solid sent) (solid (concat r.0)) (solid r.1)
          ∙ (ap (λ (x : Text). solid sent ++ x) t.conserved
              ∙ (sym (solid-append sent rest) ∙ ap solid q)));
  fragments = add_sentence-AllFragments sent r.0 t.fragments;
  settled = t.settled;
}

take_from-Taken : (fuel : ℕ) (s : Text) → length s ≤ fuel → Taken s (take_from fuel s)
unfolding take_from
take_from-Taken zero [] h = take_long-Taken [] (unfold find_sentence_end in refl)
take_from-Taken zero (c ∷ s) h = absurd (omega arith)
take_from-Taken (suc fuel) s h = elim (Option-cases (find_sentence_end s)) [
  | inl e ↦ rw (take_from, e) (take_long-Taken s e)
  | inr (p, e) ↦
      let split = subst (Splits s) e (find-Splits s) in
      rw (take_from, e)
        (round-Taken s p.0 p.1 (take_from fuel p.1) split.0
          (take_from-Taken fuel p.1 (omega (arith, split.1, h))))
]

-- The fragments that are taken from a buffer are trimmed and not empty; with the new buffer behind
-- them they hold the characters of the old one, in order, but for white space; and no sentence ends
-- in the new buffer.
pub take_complete_sentences-Taken : (buf : Text) → Taken buf (take_complete_sentences buf)
unfolding take_complete_sentences
take_complete_sentences-Taken buf = take_from-Taken (length buf) buf (omega arith)

concat-append : (xs ys : List Text) → concat (xs ++ ys) ≡ concat xs ++ concat ys
concat-append [] ys = refl
concat-append (x ∷ xs) ys =
    ap (λ (t : Text). x ++ t) (concat-append xs ys) ∙ sym (append_assoc x (concat xs) (concat ys))

-- What is said of an answer.
pub record Spoken (answer : Text) (out : List Text) : Type 0 where
  pub whole : solid (concat out) ≡ solid answer
  pub sentences : All IsFragment out

sentencize_from-Spoken :
    (buf : Text) (deltas : List Text) → Spoken (buf ++ concat deltas) (sentencize_from buf deltas)
unfolding sentencize_from flush_remainder
sentencize_from-Spoken buf [] = record {
  whole = solid-add buf [] ∙ (append-nil (solid buf) ∙ sym (ap solid (append-nil buf)));
  sentences = add_sentence-AllFragments buf [] tt;
}
sentencize_from-Spoken buf (delta ∷ deltas) =
    let taken = take_complete_sentences (buf ++ delta) in
    let t = take_complete_sentences-Taken (buf ++ delta) in
    let s = sentencize_from-Spoken taken.1 deltas in
    record {
      whole =
          ap solid (concat-append taken.0 (sentencize_from taken.1 deltas))
          ∙ (solid-append (concat taken.0) (concat (sentencize_from taken.1 deltas))
              ∙ (ap (λ (x : Text). solid (concat taken.0) ++ x)
                    (s.whole ∙ solid-append taken.1 (concat deltas))
                  ∙ (sym (
                        append_assoc (solid (concat taken.0)) (solid taken.1)
                          (solid (concat deltas)))
                      ∙ (ap (λ (x : Text). x ++ solid (concat deltas)) t.conserved
                          ∙ (sym (solid-append (buf ++ delta) (concat deltas))
                              ∙ ap solid (append_assoc buf delta (concat deltas)))))));
      sentences =
          All-append IsFragment taken.0 (sentencize_from taken.1 deltas) t.fragments s.sentences;
    }

-- However an answer comes in, what `Sentencize` gives out by the end of it holds all its characters
-- in order, but for white space, in trimmed fragments that are not empty.
pub sentencize-Spoken : (deltas : List Text) → Spoken (concat deltas) (sentencize deltas)
unfolding sentencize
sentencize-Spoken deltas = sentencize_from-Spoken [] deltas
