-- ===== src/Sessionid/Rotation.antt =====
-- Rotated ids of internal/kernel/sessionid/sessionid.go: `/new` rotates the id of a chat again and
-- again, each time from the id before.

use maven.Base.{
  ℕ, ◌+◌, ◌-◌, ◌*◌, ◌^◌, ◌≤◌, ◌<◌, ◌≡◌, ◌≢◌, refl, sym, ap, subst, ◌∙◌, inl, inr, Bool, true, false,
  none, [], ◌∷◌, ◌++◌, arith, All, Bool-cases, ltb, append_assoc,
}
use maven.Base.Decimal.{
  IsDigit, format_int, format_int-digits, format_int-byte_len, is_int64, is_below, value_from,
}
use maven.Base.Result.{err}
use maven.Base.Text.{Text, codes, byte_len, trim_space, cut}
use maven.Base.Text.Laws.{cut_found, cut_skip, cut-none}
use maven.Base.Text.Trimming.{IsTrimmed-head, head_ok-append, append-ne-nil, IsTrimmed}
use maven.Sessionid.{
  rotated, Env, or_session, cap_owner, new_trimmed, new, format, to_string, checked, parse_suffixed,
  parse_prefixed, parse, invalid,
}
use maven.Sessionid.RoundTrip.{new_lem, or_session-filled, format_int-cons, parse_between}
use maven.Sessionid.Reading.{
  not_isolated, digits-NoColon, digits-NoSpace, IsTrimmed-between, parse_suffixed_back, IsPlain,
}

byte_len-append : (s t : Text) → byte_len (s ++ t) ≡ byte_len s + byte_len t
unfolding byte_len
byte_len-append [] t = omega arith
byte_len-append (c ∷ s) t = omega (arith, byte_len-append s t)

-- The hash is sixteen bytes long.
abbrev pub ShortDigest : Env → Type 0
ShortDigest env = (t : Text) → byte_len (env.digest t) ≡ 16

cap_owner-le : (env : Env) (o : Text) → ShortDigest env → byte_len (cap_owner env o) ≤ 80
cap_owner-le env o short = elim (Bool-cases (ltb 80 (byte_len o))) [
  | inl long ↦ rw (cap_long long) (omega (arith, r_len, short o))
  | inr fits ↦ rw (cap_short fits) (ground arith)
]
  where
    cap_long : ltb 80 (byte_len o) ≡ true → cap_owner env o ≡ b'r' ∷ env.digest o
    cap_long e = unfold cap_owner in rw e

    cap_short : ltb 80 (byte_len o) ≡ false → cap_owner env o ≡ o
    cap_short e = unfold cap_owner in rw e

    r_len : byte_len (b'r' ∷ env.digest o) ≡ 1 + byte_len (env.digest o)
    r_len = unfold byte_len in refl

mark_len : byte_len (codes ":rotated:") ≡ 9
unfolding byte_len
mark_len = refl

-- However long the seed, the print of a rotated id has at most 108 bytes, for a time of 63 bits and
-- a hash of sixteen bytes.
pub to_string-rotated_le :
    (env : Env) (seed : Text)
    → ShortDigest env
    → env.nanos < 2 ^ 63
    → byte_len (to_string (new env rotated seed)) ≤ 108
unfolding to_string format
to_string-rotated_le env seed short small =
    let o = cap_owner env (or_session (trim_space seed)) in
    rw
      (
        new_rotated,
        byte_len-append o (codes ":rotated:" ++ format_int env.nanos),
        byte_len-append (codes ":rotated:") (format_int env.nanos),
      )
      (omega (
        arith,
        cap_owner-le env (or_session (trim_space seed)) short,
        format_int-byte_len env.nanos small,
        mark_len,
      ))
  where
    new_rotated :
        to_string (new env rotated seed)
        ≡ cap_owner env (or_session (trim_space seed))
          ++ (codes ":rotated:" ++ format_int env.nanos)
    new_rotated = unfold new to_string in refl

-- A colon is no part of a number.
value_from_colon : (n : ℕ) (s rest : Text) → All IsDigit s → value_from n (s ++ b':' ∷ rest) ≡ none
unfolding value_from
value_from_colon n [] rest h = refl
value_from_colon n (c ∷ s) rest (hc, hs) =
    ground (arith, value_from_colon (n * 10 + (c - b'0')) s rest hs)

is_int64_colon :
    (c : ℕ) (s rest : Text) → All IsDigit (c ∷ s) → is_int64 (c ∷ (s ++ b':' ∷ rest)) ≡ false
unfolding is_int64 is_below
is_int64_colon c s rest h = ground (arith, value_from_colon 0 (c ∷ s) rest h)

module _ (is_uuid : Text → Bool) {o : Text} (plain : IsPlain o) where
  -- The print of an id that was rotated twice, as its parts.
  twice_back :
      (c : ℕ) (s : Text) (d : ℕ) (t : Text)
      → All IsDigit (c ∷ s)
      → All IsDigit (d ∷ t)
      → parse is_uuid ((o ++ (codes ":rotated:" ++ c ∷ s)) ++ (codes ":rotated:" ++ d ∷ t))
        ≡ err (invalid rotated)
  twice_back c s d t hs ht =
      parse_between is_uuid (o ++ (codes ":rotated:" ++ c ∷ s)) (codes ":rotated:") d t
        (head_ok-append o _ plain.filled (IsTrimmed-head o plain.trimmed))
        (append-ne-nil o _ plain.filled) (digits-NoSpace (d ∷ t) ht)
        (subst (λ u. parse_prefixed is_uuid u ≡ err (invalid rotated))
          (sym (append_assoc o (codes ":rotated:" ++ c ∷ s) (codes ":rotated:" ++ d ∷ t)))
          (parse_suffixed_back is_uuid o _ plain ∙ suffixed))
    where
      tail : Text
      tail = s ++ (codes ":rotated:" ++ d ∷ t)

      behind : cut (codes ":isolated:") tail ≡ none
      behind = rw (
        cut_skip b':' (codes "isolated:") s (codes ":rotated:" ++ d ∷ t) (digits-NoColon s hs.1),
        not_isolated d t ht.0 (cut-none b':' (codes "isolated:") t (digits-NoColon t ht.1)),
      )

      no_isolated : cut (codes ":isolated:") (o ++ (codes ":rotated:" ++ c ∷ tail)) ≡ none
      no_isolated = rw (
        cut_skip b':' (codes "isolated:") o (codes ":rotated:" ++ c ∷ tail) plain.no_colon,
        not_isolated c tail hs.0 behind,
      )

      suffixed :
          parse_suffixed is_uuid (o ++ (codes ":rotated:" ++ c ∷ tail)) ≡ err (invalid rotated)
      suffixed =
          unfold parse_suffixed checked in
          rw (
            no_isolated,
            cut_found b':' (codes "rotated:") o (c ∷ tail) plain.no_colon,
            is_int64_colon c s (codes "rotated:" ++ d ∷ t) hs,
            parse_suffixed,
          )

-- The print of a rotated id whose owner is kept.
print_rotated :
    (env : Env) (seed : Text)
    → trim_space seed ≢ []
    → byte_len (trim_space seed) ≤ 80
    → to_string (new env rotated seed)
      ≡ trim_space seed ++ (codes ":rotated:" ++ format_int env.nanos)
unfolding to_string format new_trimmed
print_rotated env seed ne short =
    rw (new_lem env rotated seed, or_session-filled (trim_space seed) ne, kept) refl
  where
    fits : ltb 80 (byte_len (trim_space seed)) ≡ false
    fits = ground arith

    kept : cap_owner env (trim_space seed) ≡ trim_space seed
    kept = unfold cap_owner in rw fits

print_trimmed :
    (env : Env) (u : Text)
    → IsTrimmed u
    → u ≢ []
    → byte_len u ≤ 80
    → to_string (new env rotated u) ≡ u ++ (codes ":rotated:" ++ format_int env.nanos)
print_trimmed env u t ne short =
    print_rotated env u (subst (λ v. v ≢ []) (sym t) ne)
      (subst (λ v. byte_len v ≤ 80) (sym t) short)
    ∙ ap (λ v. v ++ (codes ":rotated:" ++ format_int env.nanos)) t

module _ (is_uuid : Text → Bool) (e1 e2 : Env) (seed : Text) where
  -- An id that was rotated twice is refused by `Parse`: for every plain owner of at most 52 bytes
  -- and at any two times, the first of 63 bits.
  pub parse-rotated_twice :
      IsPlain (trim_space seed)
      → byte_len (trim_space seed) ≤ 52
      → e1.nanos < 2 ^ 63
      → parse is_uuid (to_string (new e2 rotated (to_string (new e1 rotated seed))))
        ≡ err (invalid rotated)
  parse-rotated_twice plain short small =
      let o = trim_space seed in
      let (c, s, f1) = format_int-cons e1.nanos in
      let (d, t, f2) = format_int-cons e2.nanos in
      let first_digits = subst (All IsDigit) f1 (format_int-digits e1.nanos) in
      let second_digits = subst (All IsDigit) f2 (format_int-digits e2.nanos) in
      let token_len = subst (λ v. byte_len v ≤ 19) f1 (format_int-byte_len e1.nanos small) in
      let u = o ++ (codes ":rotated:" ++ c ∷ s) in
      let once =
        print_rotated e1 seed plain.filled (omega arith)
        ∙ ap (λ v. o ++ (codes ":rotated:" ++ v)) f1 in
      let trimmed =
        IsTrimmed-between o (codes ":rotated:") c s (IsTrimmed-head o plain.trimmed) plain.filled
          (digits-NoSpace (c ∷ s) first_digits) in
      let fits : byte_len u ≤ 80 = omega (
        arith,
        byte_len-append o (codes ":rotated:" ++ c ∷ s),
        byte_len-append (codes ":rotated:") (c ∷ s),
        mark_len,
      ) in
      rw (once, print_trimmed e2 u trimmed (append-ne-nil o _ plain.filled) fits, f2)
        (twice_back is_uuid plain c s d t first_digits second_digits)
