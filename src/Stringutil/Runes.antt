-- ===== src/Stringutil/Runes.antt =====
-- `TruncateBytes`, `TruncateRunes` and `TruncateRunesTail` of
-- internal/kernel/stringutil/truncate.go: prefixes and suffixes within a limit.
use native.Mathlib.Nat.{zero-add}
use maven.Base.{
  subst, ℕ, zero, suc, ◌+◌, ◌-◌, ◌≤◌, ◌<◌, ◌≡◌, refl, ap, sym, [], append-nil, inl, inr, true,
  false, if◌then◌else◌, leb→le, Bool-cases, ◌∷◌, ◌++◌, arith, ltb, leb, ◌==◌, length, take, drop,
  length-append, length-drop, take-append-drop,
}
use maven.Base.Text.{Text, rune_len, byte_len}
use maven.Stringutil.{fit, truncate_bytes, take_runes, truncate_runes, truncate_runes_tail}

-- `kept` is the longest prefix of `s` of at most `room` bytes.
abbrev pub Longest : ℕ → Text → Text → Type 0
Longest room s kept =
    ((rest : Text) × (s ≡ kept ++ rest))
    × (byte_len kept ≤ room)
    × ((p rest : Text) → s ≡ p ++ rest → byte_len p ≤ room → length p ≤ length kept)

fit-prefix : (max_bytes count : ℕ) (s : Text) → (rest : Text) × (s ≡ fit max_bytes count s ++ rest)
unfolding fit
fit-prefix max_bytes count [] = ([], refl)
fit-prefix max_bytes count (c ∷ s) = elim (Bool-cases (ltb max_bytes (count + rune_len c))) [
  | inl over ↦ (c ∷ s, rw (over, fit))
  | inr room ↦
      let (rest, e) = fit-prefix max_bytes (count + rune_len c) s in
      (rest, rw (room, fit) (ap (◌∷◌ c) e))
]

fit-le :
    (max_bytes count : ℕ) (s : Text)
    → count ≤ max_bytes
    → count + byte_len (fit max_bytes count s) ≤ max_bytes
unfolding fit byte_len
fit-le max_bytes count [] h = omega arith
fit-le max_bytes count (c ∷ s) h = ground (arith, fit-le max_bytes (count + rune_len c) s)

fit-longest :
    (max_bytes count : ℕ) (s p rest : Text)
    → s ≡ p ++ rest
    → count + byte_len p ≤ max_bytes
    → length p ≤ length (fit max_bytes count s)
unfolding fit byte_len
fit-longest max_bytes count [] [] rest e h = omega arith
fit-longest max_bytes count [] (d ∷ p) rest e h = cc
fit-longest max_bytes count (c ∷ s) [] rest e h = omega arith
fit-longest max_bytes count (c ∷ s) (d ∷ p) rest e h =
    ground (arith, fit-longest max_bytes (count + rune_len c) s p rest)

-- The result of `TruncateBytes` is the longest prefix of whole runes that has at most the limit's
-- bytes, for a positive limit.
pub truncate_bytes-Longest :
    (s : Text) (max_bytes : ℕ) → 0 < max_bytes → Longest max_bytes s (truncate_bytes s max_bytes)
unfolding truncate_bytes
truncate_bytes-Longest s max_bytes pos = elim (Bool-cases (leb (byte_len s) max_bytes)) [
  | inl short ↦ rw (within short) (([], sym (append-nil s)), leb→le _ _ short, whole)
  | inr long ↦ rw (beyond long) (
    fit-prefix max_bytes 0 s,
    omega (arith, fit-le max_bytes 0 s (omega arith)),
    λ p rest e h. fit-longest max_bytes 0 s p rest e (omega arith),
  )
]
  where
    within : leb (byte_len s) max_bytes ≡ true → truncate_bytes s max_bytes ≡ s
    within e = ground arith

    beyond : leb (byte_len s) max_bytes ≡ false → truncate_bytes s max_bytes ≡ fit max_bytes 0 s
    beyond e = ground arith

    whole : (p rest : Text) → s ≡ p ++ rest → byte_len p ≤ max_bytes → length p ≤ length s
    whole p rest e h = omega (arith, ap (length {0}) e, length-append p rest)

take_runes-take : (room n : ℕ) (s : Text) → take_runes (n + room) n s ≡ take room s
unfolding take_runes
take_runes-take zero n [] = refl
take_runes-take (suc room) n [] = refl
take_runes-take zero n (c ∷ s) = ground arith
take_runes-take (suc room) n (c ∷ s) = ground (arith, take_runes-take room (n + 1) s)

take_runes_from_0 : (room : ℕ) (s : Text) → take_runes room 0 s ≡ take room s
take_runes_from_0 room s =
    subst (λ m. take_runes m 0 s ≡ take room s) (zero-add room) (take_runes-take room 0 s)

-- `TruncateRunes` keeps the first runes up to the limit; a limit of 0 keeps the text.
pub truncate_runes-take :
    (s : Text) (max_runes : ℕ)
    → truncate_runes s max_runes ≡ (if max_runes == 0 then s else take max_runes s)
unfolding truncate_runes
truncate_runes-take s max_runes = rw (take_runes_from_0 max_runes s)

-- What `TruncateRunesTail` promises.
pub record Tail (s : Text) (max_runes : ℕ) (marker out : Text) : Type 0 where
  pub short : length s ≤ max_runes → out ≡ s
  pub size : max_runes < length s → length out ≡ max_runes
  pub bare : max_runes < length s → max_runes ≤ length marker → (lost : Text) × (s ≡ lost ++ out)
  pub marked :
      max_runes < length s
      → length marker < max_runes
      → (lost tail : Text) × (s ≡ lost ++ tail) × (out ≡ marker ++ tail)

module _ (s : Text) (max_runes : ℕ) (marker : Text) (pos : 0 < max_runes) where
  tail_short : length s ≤ max_runes → truncate_runes_tail s max_runes marker ≡ s
  unfolding truncate_runes_tail
  tail_short h = ground arith

  tail_bare :
      max_runes < length s
      → max_runes ≤ length marker
      → truncate_runes_tail s max_runes marker ≡ drop (length s - max_runes) s
  unfolding truncate_runes_tail
  tail_bare h k = ground arith

  tail_marked :
      max_runes < length s
      → length marker < max_runes
      → truncate_runes_tail s max_runes marker
        ≡ marker ++ drop (length s - max_runes + length marker) s
  unfolding truncate_runes_tail
  tail_marked h k = ground arith

  tail_size : max_runes < length s → length (truncate_runes_tail s max_runes marker) ≡ max_runes
  tail_size h = elim (Bool-cases (leb max_runes (length marker))) [
    | inl wide ↦
        rw (tail_bare h (leb→le _ _ wide)) (omega (arith, length-drop (length s - max_runes) s))
    | inr narrow ↦ rw (tail_marked h (ground arith)) (
        rw
          (
            length-append marker (drop (length s - max_runes + length marker) s),
            length-drop (length s - max_runes + length marker) s,
          )
          (ground arith))
  ]

  -- With a positive limit the result of `TruncateRunesTail` is a text that fits, or has exactly as
  -- many runes as the limit: the text's last runes, behind the marker if it is shorter than the
  -- limit.
  pub truncate_runes_tail-Tail : Tail s max_runes marker (truncate_runes_tail s max_runes marker)
  truncate_runes_tail-Tail = record {
    short = tail_short;
    size = tail_size;
    bare = λ h k. (
      take (length s - max_runes) s,
      rw (tail_bare h k) (sym (take-append-drop (length s - max_runes) s)),
    );
    marked = λ h k.
        let n = length s - max_runes + length marker in
        (take n s, drop n s, sym (take-append-drop n s), tail_marked h k);
  }
