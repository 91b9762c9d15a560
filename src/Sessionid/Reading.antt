-- ===== src/Sessionid/Reading.antt =====
-- `Parse` of internal/kernel/sessionid/sessionid.go on each printed form.

use maven.Base.{
  append_assoc, ℕ, ◌≤◌, ◌<◌, ◌^◌, ◌≡◌, ◌≢◌, refl, sym, subst, ◌∙◌, ◌⊎◌, Bool, true, false, none, [],
  ◌∷◌, ◌++◌, arith, All,
}
use maven.Base.Decimal.{IsDigit, is_int64}
use maven.Base.Result.{ok}
use maven.Base.Text.{Text, codes, is_space, strip_prefix, cut}
use maven.Base.Text.Laws.{
  cut_found, cut_skip, cut-none, strip_prefix-append, strip_prefix-none, strip_prefix_ne,
}
use maven.Base.Text.Trimming.{
  IsTrimmed, IsTrimmed-of_ends, last_ok, last_ok-append, last_ok_of_no_space, head_ok,
}
use maven.Sessionid.{
  chat, cron, isolated, rotated, Env, id_of, format, parse_cron, parse_suffixed, parse_prefixed,
  parse,
}

abbrev pub NoColon : Text → Type 0
NoColon = All (λ c. c ≢ b':')

abbrev pub NoSpace : Text → Type 0
NoSpace = All (λ c. is_space c ≡ false)

-- A hexadecimal digit.
abbrev pub IsHex : ℕ → Type 0
IsHex c = IsDigit c ⊎ ((b'a' ≤ c) × (c ≤ b'f'))

-- What `New` relies on: a uuid that `uuid.Parse` takes, with no white space, a time of 63 bits, and
-- hexadecimal hashes.
pub record IsEnv (is_uuid : Text → Bool) (env : Env) : Type 0 where
  pub accepted : is_uuid env.uuid ≡ true
  pub printed : NoSpace env.uuid
  pub present : env.uuid ≢ []
  pub in_range : env.nanos < 2 ^ 63
  pub hex : (t : Text) → All IsHex (env.digest t)

-- An owner that stands for itself in an id.
pub record IsPlain (owner : Text) : Type 0 where
  pub filled : owner ≢ []
  pub trimmed : IsTrimmed owner
  pub no_colon : NoColon owner
  pub not_cron : owner ≢ codes "cron"
  pub not_heartbeat : owner ≢ codes "heartbeat"
  pub not_task : owner ≢ codes "task"

pub digits-NoSpace : (s : Text) → All IsDigit s → NoSpace s
digits-NoSpace [] h = tt
digits-NoSpace (c ∷ s) (hc, hs) = (digit_no_space c hc, digits-NoSpace s hs)
  where
    digit_no_space : (c : ℕ) → IsDigit c → is_space c ≡ false
    digit_no_space c h = unfold is_space in ground arith

-- A text between a plain owner and a token without spaces keeps its ends.
pub IsTrimmed-between :
    (a m : Text) (c : ℕ) (b : Text)
    → head_ok a ≡ true
    → a ≢ []
    → NoSpace (c ∷ b)
    → IsTrimmed (a ++ (m ++ c ∷ b))
IsTrimmed-between [] m c b h ne sp = absurd (ne refl)
IsTrimmed-between (x ∷ a) m c b h ne sp = IsTrimmed-of_ends _ h (
    subst (λ u. last_ok u ≡ true) (append_assoc (x ∷ a) m (c ∷ b))
      (last_ok-append ((x ∷ a) ++ m) c b ∙ last_ok_of_no_space (c ∷ b) sp))

-- None of the fixed prefixes starts a plain owner, with or without a suffix behind a colon.
module _ {o : Text} (plain : IsPlain o) where
  no_prefix :
      (k rest : Text) → NoColon k → o ≢ k → strip_prefix (k ++ b':' ∷ []) (o ++ b':' ∷ rest) ≡ none
  no_prefix k rest h ne = strip_prefix_ne b':' k o rest h plain.no_colon (λ e. ne (sym e))

pub digits-NoColon : (s : Text) → All IsDigit s → NoColon s
digits-NoColon [] h = tt
digits-NoColon (c ∷ s) (hc, hs) = (ground arith, digits-NoColon s hs)

pub not_isolated :
    (c : ℕ) (rest : Text)
    → IsDigit c
    → cut (codes ":isolated:") rest ≡ none
    → cut (codes ":isolated:") (codes ":rotated:" ++ c ∷ rest) ≡ none
unfolding cut strip_prefix
not_isolated c rest h e = ground arith

module _ (is_uuid : Text → Bool) where
  pub parse_trimmed : (s : Text) → IsTrimmed s → s ≢ [] → parse is_uuid s ≡ parse_prefixed is_uuid s
  unfolding parse
  parse_trimmed [] t ne = absurd (ne refl)
  parse_trimmed (c ∷ s) t ne = rw (t, parse)

  pub parse_cron_back :
      (o token : Text)
      → o ≢ []
      → NoColon o
      → is_uuid token ≡ true
      → parse_prefixed is_uuid (format cron o token) ≡ ok (id_of cron o token)
  unfolding parse_prefixed parse_cron format
  parse_cron_back [] token ne h valid = absurd (ne refl)
  parse_cron_back (c ∷ o) token ne h valid =
      rw (strip_prefix-append (codes "cron:") (c ∷ (o ++ b':' ∷ token)), parse_prefixed)
        (rw (cut_found b':' [] (c ∷ o) token h, parse_cron) (rw valid))

  pub parse_suffixed_back :
      (o rest : Text)
      → IsPlain o
      → parse_prefixed is_uuid (o ++ b':' ∷ rest) ≡ parse_suffixed is_uuid (o ++ b':' ∷ rest)
  unfolding parse_prefixed
  parse_suffixed_back o rest plain = rw (
    no_prefix plain (codes "cron") rest (omega arith) plain.not_cron,
    no_prefix plain (codes "heartbeat") rest (omega arith) plain.not_heartbeat,
    no_prefix plain (codes "task") rest (omega arith) plain.not_task,
    parse_prefixed,
  )

  pub parse_isolated_back :
      (o token : Text)
      → NoColon o
      → is_int64 token ≡ true
      → parse_suffixed is_uuid (format isolated o token) ≡ ok (id_of isolated o token)
  unfolding parse_suffixed format
  parse_isolated_back o token h valid =
      rw (cut_found b':' (codes "isolated:") o token h, parse_suffixed) (rw valid)

  pub parse_rotated_back :
      (o : Text) (c : ℕ) (token : Text)
      → NoColon o
      → All IsDigit (c ∷ token)
      → is_int64 (c ∷ token) ≡ true
      → parse_suffixed is_uuid (format rotated o (c ∷ token)) ≡ ok (id_of rotated o (c ∷ token))
  unfolding parse_suffixed format
  parse_rotated_back o c token h k valid =
      rw
        (
          cut_skip b':' (codes "isolated:") o (codes ":rotated:" ++ c ∷ token) h,
          not_isolated c token k.0
              (cut-none b':' (codes "isolated:") token (digits-NoColon token k.1)),
          cut_found b':' (codes "rotated:") o (c ∷ token) h,
          parse_suffixed,
        )
        (rw valid)

  pub parse_chat_back : (o : Text) → NoColon o → parse_prefixed is_uuid o ≡ ok (id_of chat o [])
  unfolding parse_prefixed parse_suffixed
  parse_chat_back o h = rw (
    strip_prefix-none (λ c. c ≢ b':') (codes "cron:") o (λ rest a. a.1.1.1.1.0 refl) h,
    strip_prefix-none (λ c. c ≢ b':') (codes "heartbeat:") o (λ rest a. a.1.1.1.1.1.1.1.1.1.0 refl)
        h,
    strip_prefix-none (λ c. c ≢ b':') (codes "task:") o (λ rest a. a.1.1.1.1.0 refl) h,
    cut-none b':' (codes "isolated:") o h,
    cut-none b':' (codes "rotated:") o h,
    parse_prefixed,
    parse_suffixed,
  )

hex-NoColon : (s : Text) → All IsHex s → NoColon s
hex-NoColon [] h = tt
hex-NoColon (c ∷ s) (hc, hs) = (ground arith, hex-NoColon s hs)

hex-NoSpace : (s : Text) → All IsHex s → NoSpace s
hex-NoSpace [] h = tt
hex-NoSpace (c ∷ s) (hc, hs) = (hex_no_space c hc, hex-NoSpace s hs)
  where
    hex_no_space : (c : ℕ) → IsHex c → is_space c ≡ false
    hex_no_space c h = unfold is_space in ground arith

-- The hash that stands for a long owner is a plain owner.
pub digest-IsPlain : (t : Text) → All IsHex t → IsPlain (b'r' ∷ t)
digest-IsPlain t h = record {
  filled = λ e. absurd (ground arith);
  trimmed =
      IsTrimmed-of_ends _ (unfold is_space in refl)
        (last_ok_of_no_space (b'r' ∷ t) (unfold is_space in refl, hex-NoSpace t h));
  no_colon = (omega arith, hex-NoColon t h);
  not_cron = λ e. absurd (ground arith);
  not_heartbeat = λ e. absurd (ground arith);
  not_task = λ e. absurd (ground arith);
}
