-- ===== src/Turnctx/Overlay.antt =====
-- internal/kernel/turnctx/turn.go: what a handler finds in a context.
use maven.Base.{
  false, Option, none, some, [], ◌∷◌, ◌≡◌, ◌≢◌, subst, arith, All, inl, inr, Bool-cases, is_empty,
}
use maven.Base.Assoc.{insert}
use maven.Base.Text.{Text, trim_space, text_eq}
use maven.Base.Text.Trimming.{IsTrimmed, trim_space-IsTrimmed}
use maven.Turnctx.{
  Metadata, TurnContext, Context, put_trimmed, normalize_metadata, normalize, from, nil_if_empty,
}

-- A text as `strings.TrimSpace` leaves it, and not blank.
pub record IsFilled (t : Text) : Type 0 where
  pub trimmed : IsTrimmed t
  pub present : t ≢ []

filled : (t : Text) → is_empty (trim_space t) ≡ false → IsFilled (trim_space t)
filled t e = record {
  trimmed = trim_space-IsTrimmed t;
  present = λ q. absurd (clash (trim_space t) e q);
}
  where
    clash : (s : Text) → is_empty s ≡ false → s ≡ [] → ⊥
    clash [] e q = absurd (ground arith)
    clash (c ∷ s) e q = absurd (ground arith)

module _ {V : Type 0} where
  abbrev KeyOk : Text × V → Type 0
  KeyOk e = IsFilled e.0

  insert-KeyOk :
      (k : Text) (v : V) (m : Metadata V) → IsFilled k → All KeyOk m → All KeyOk (insert k v m)
  unfolding insert
  insert-KeyOk k v [] h t = (h, tt)
  insert-KeyOk k v ((j, w) ∷ m) h t = elim (Bool-cases (text_eq j k)) [
    | inl e ↦ rw e (h, t.1)
    | inr e ↦ rw e (t.0, insert-KeyOk k v m h t.1)
  ]

  put_trimmed-KeyOk : (md base : Metadata V) → All KeyOk base → All KeyOk (put_trimmed base md)
  unfolding put_trimmed
  put_trimmed-KeyOk [] base t = t
  put_trimmed-KeyOk ((k, v) ∷ md) base t = elim (Bool-cases (is_empty (trim_space k))) [
    | inl e ↦ rw e (put_trimmed-KeyOk md base t)
    | inr e ↦ rw e (put_trimmed-KeyOk md _ (insert-KeyOk (trim_space k) v base (filled k e) t))
  ]

  abbrev pub MetadataOk : Option (Metadata V) → Type 0
  MetadataOk none = Unit
  MetadataOk (some md) = (md ≢ []) × All KeyOk md

  nil_if_empty-Ok : (md : Metadata V) → All KeyOk md → MetadataOk (nil_if_empty md)
  nil_if_empty-Ok [] t = tt
  nil_if_empty-Ok (e ∷ md) t = (λ q. absurd (ground arith), t)

  normalize_metadata-Ok : (md : Option (Metadata V)) → MetadataOk (normalize_metadata md)
  unfolding normalize_metadata
  normalize_metadata-Ok none = tt
  normalize_metadata-Ok (some md) = nil_if_empty-Ok _ (put_trimmed-KeyOk md [] tt)

  -- A turn that tools may rely on.
  pub record IsReady (tc : TurnContext V) : Type 0 where
    pub channel_filled : IsFilled tc.channel
    pub chat_filled : IsFilled tc.chat_id
    pub metadata_filled : MetadataOk tc.metadata

  abbrev ReadyIfAny : Option (TurnContext V) → Type 0
  ReadyIfAny none = Unit
  ReadyIfAny (some tc) = IsReady tc

  from-ReadyIfAny : (ctx : Context V) → ReadyIfAny (from ctx)
  unfolding from normalize
  from-ReadyIfAny none = tt
  from-ReadyIfAny (some tc) = elim (Bool-cases (is_empty (trim_space tc.channel))) [
    | inl e ↦ rw e tt
    | inr e ↦ elim (Bool-cases (is_empty (trim_space tc.chat_id))) [
      | inl f ↦ rw (e, f) tt
      | inr f ↦
          rw (e, f)
            (record {
              channel_filled = filled tc.channel e;
              chat_filled = filled tc.chat_id f;
              metadata_filled = normalize_metadata-Ok tc.metadata;
            })
    ]
  ]

  -- Whatever a context carries, the turn that `From` gives has a channel and a chat that are trimmed
  -- and not blank, and its metadata is nil or has keys, all of them trimmed and not blank.
  pub from-IsReady : (ctx : Context V) (tc : TurnContext V) → from ctx ≡ some tc → IsReady tc
  from-IsReady ctx tc h = subst ReadyIfAny h (from-ReadyIfAny ctx)
