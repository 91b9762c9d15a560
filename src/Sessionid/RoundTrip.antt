-- ===== src/Sessionid/RoundTrip.antt =====
-- `New`, `String` and `Parse` of internal/kernel/sessionid/sessionid.go: an id is read back.

use maven.Base.{
  ℕ, ◌<◌, ◌^◌, ◌≡◌, ◌≢◌, refl, subst, ◌∙◌, inl, inr, Bool, true, [], ◌∷◌, ◌++◌, arith, All,
  Bool-cases, ltb,
}
use maven.Base.Decimal.{
  IsDigit, format_int, is_int64, format_int-is_int64, format_int-digits, format_int-ne-nil,
}
use maven.Base.Result.{Result, ok}
use maven.Base.Text.{byte_len, Text, codes, is_space, trim_space, strip_prefix}
use maven.Base.Text.Trimming.{IsTrimmed-head, head_ok}
use maven.Sessionid.Reading.{
  NoSpace, IsEnv, IsPlain, digits-NoSpace, IsTrimmed-between, digest-IsPlain, parse_trimmed,
  parse_cron_back, parse_suffixed_back, parse_isolated_back, parse_rotated_back, parse_chat_back,
}
use maven.Sessionid.{
  Kind, chat, cron, heartbeat, isolated, rotated, task, SessionId, Env, or_session, cap_owner,
  id_of, new_trimmed, new, format, to_string, checked, parse_suffixed, parse_prefixed, parse,
  ParseError,
}

pub new_lem :
    (env : Env) (kind : Kind) (seed : Text)
    → new env kind seed ≡ new_trimmed env kind (trim_space seed)
unfolding new
new_lem env kind seed = refl

pub or_session-filled : (seed : Text) → seed ≢ [] → or_session seed ≡ seed
unfolding or_session
or_session-filled [] h = absurd (h refl)
or_session-filled (c ∷ seed) h = refl

pub format_int-cons : (n : ℕ) → (c : ℕ) × (s : Text) × (format_int n ≡ c ∷ s)
format_int-cons n = by_text (format_int n) refl
  where
    by_text : (t : Text) → format_int n ≡ t → (c : ℕ) × (s : Text) × (format_int n ≡ c ∷ s)
    by_text [] e = absurd (format_int-ne-nil n e)
    by_text (c ∷ s) e = (c, s, e)

module _ (is_uuid : Text → Bool) where
  -- A printed id is not empty and not cut by `TrimSpace`.
  pub parse_between :
      (a m : Text) (c : ℕ) (token : Text) {r : Result ParseError SessionId}
      → head_ok a ≡ true
      → a ≢ []
      → NoSpace (c ∷ token)
      → parse_prefixed is_uuid (a ++ (m ++ c ∷ token)) ≡ r
      → parse is_uuid (a ++ (m ++ c ∷ token)) ≡ r
  parse_between [] m c token h ne sp e = absurd (ne refl)
  parse_between (x ∷ a) m c token h ne sp e =
      parse_trimmed is_uuid _
        (IsTrimmed-between (x ∷ a) m c token h (λ q. absurd (ground arith)) sp)
        (λ q. absurd (ground arith))
      ∙ e

  pub suffixed_back :
      (kind : Kind) (o m : Text) (c : ℕ) (token : Text)
      → IsPlain o
      → NoSpace (c ∷ token)
      → parse_suffixed is_uuid (o ++ ((b':' ∷ m) ++ c ∷ token)) ≡ ok (id_of kind o (c ∷ token))
      → parse is_uuid (o ++ ((b':' ∷ m) ++ c ∷ token)) ≡ ok (id_of kind o (c ∷ token))
  suffixed_back kind o m c token plain sp e =
      parse_between o (b':' ∷ m) c token (IsTrimmed-head o plain.trimmed) plain.filled sp
        (parse_suffixed_back is_uuid o (m ++ c ∷ token) plain ∙ e)

  cron_back :
      (o token : Text)
      → IsPlain o
      → NoSpace token
      → token ≢ []
      → is_uuid token ≡ true
      → parse is_uuid (format cron o token) ≡ ok (id_of cron o token)
  unfolding format
  cron_back o [] plain sp ne valid = absurd (ne refl)
  cron_back o (c ∷ token) plain sp ne valid =
      parse_between (codes "cron:" ++ o) (codes ":") c token (unfold is_space in refl)
        (λ q. absurd (ground arith)) sp
        (parse_cron_back is_uuid o (c ∷ token) plain.filled plain.no_colon valid)

  heartbeat_back :
      (token : Text)
      → NoSpace token
      → token ≢ []
      → is_uuid token ≡ true
      → parse is_uuid (format heartbeat [] token) ≡ ok (id_of heartbeat [] token)
  unfolding format
  heartbeat_back [] sp ne valid = absurd (ne refl)
  heartbeat_back (c ∷ token) sp ne valid =
      parse_between (codes "heartbeat:") [] c token (unfold is_space in refl)
        (λ q. absurd (ground arith)) sp (unfold parse_prefixed checked strip_prefix in rw valid)

  task_back :
      (token : Text)
      → NoSpace token
      → token ≢ []
      → is_uuid token ≡ true
      → parse is_uuid (format task [] token) ≡ ok (id_of task [] token)
  unfolding format
  task_back [] sp ne valid = absurd (ne refl)
  task_back (c ∷ token) sp ne valid =
      parse_between (codes "task:") [] c token (unfold is_space in refl)
        (λ q. absurd (ground arith)) sp (unfold parse_prefixed checked strip_prefix in rw valid)

  chat_back : (o : Text) → IsPlain o → parse is_uuid o ≡ ok (id_of chat o [])
  chat_back o plain =
      parse_trimmed is_uuid o plain.trimmed plain.filled ∙ parse_chat_back is_uuid o plain.no_colon

  isolated_back :
      (o : Text) (n : ℕ)
      → IsPlain o
      → n < 2 ^ 63
      → parse is_uuid (format isolated o (format_int n)) ≡ ok (id_of isolated o (format_int n))
  unfolding format
  isolated_back o n plain small =
      let (c, s, e) = format_int-cons n in
      rw e (
        suffixed_back isolated o (codes "isolated:") c s plain
          (digits-NoSpace (c ∷ s) (subst (All IsDigit) e (format_int-digits n)))
          (parse_isolated_back is_uuid o (c ∷ s) plain.no_colon
            (subst (λ t. is_int64 t ≡ true) e (format_int-is_int64 n small))))

  rotated_back :
      (o : Text) (n : ℕ)
      → IsPlain o
      → n < 2 ^ 63
      → parse is_uuid (format rotated o (format_int n)) ≡ ok (id_of rotated o (format_int n))
  unfolding format
  rotated_back o n plain small =
      let (c, s, e) = format_int-cons n in
      let digits = subst (All IsDigit) e (format_int-digits n) in
      rw e (
        suffixed_back rotated o (codes "rotated:") c s plain (digits-NoSpace (c ∷ s) digits) (
          parse_rotated_back is_uuid o c s plain.no_colon digits
            (subst (λ t. is_int64 t ≡ true) e (format_int-is_int64 n small))))

module _ (is_uuid : Text → Bool) (env : Env) (known : IsEnv is_uuid env) where
  pub cap_owner-IsPlain : (o : Text) → IsPlain o → IsPlain (cap_owner env o)
  unfolding cap_owner
  cap_owner-IsPlain o plain = elim (Bool-cases (ltb 80 (byte_len o))) [
    | inl long ↦ rw long (digest-IsPlain _ (known.hex o))
    | inr short ↦ rw short plain
  ]

  trimmed_back :
      (kind : Kind) (seed : Text)
      → IsPlain seed
      → parse is_uuid (to_string (new_trimmed env kind seed)) ≡ ok (new_trimmed env kind seed)
  unfolding new_trimmed to_string
  trimmed_back chat seed plain = chat_back is_uuid seed plain
  trimmed_back cron seed plain =
      cron_back is_uuid seed env.uuid plain known.printed known.present known.accepted
  trimmed_back heartbeat seed plain =
      heartbeat_back is_uuid env.uuid known.printed known.present known.accepted
  trimmed_back task seed plain =
      task_back is_uuid env.uuid known.printed known.present known.accepted
  trimmed_back isolated seed plain =
      rw (or_session-filled seed plain.filled)
        (isolated_back is_uuid seed env.nanos plain known.in_range)
  trimmed_back rotated seed plain = rw (or_session-filled seed plain.filled) (
      rotated_back is_uuid (cap_owner env seed) env.nanos (cap_owner-IsPlain seed plain)
        known.in_range)

  -- An id that `New` makes is read back from its print with its kind, owner and token: for every
  -- kind, if the trimmed seed is a plain owner.
  pub parse-to_string :
      (kind : Kind) (seed : Text)
      → IsPlain (trim_space seed)
      → parse is_uuid (to_string (new env kind seed)) ≡ ok (new env kind seed)
  parse-to_string kind seed plain = rw new_lem (trimmed_back kind (trim_space seed) plain)
