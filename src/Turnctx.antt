-- ===== src/Turnctx.antt =====
-- internal/kernel/turnctx/turn.go: the routing identity of a turn in a context. A context is the
-- turn that it carries, if any; a value of the metadata is a parameter. Go goes through a map in any
-- order; here it is the order of the list, so that the last of two keys with one trim wins.
pub mod Overlay
pub mod Tests
use maven.Base.{Bool, ◌||◌, Option, none, some, List, [], ◌∷◌, if◌then◌else◌, is_empty}
use maven.Base.Assoc.{insert}
use maven.Base.Text.{Text, trim_space, text_eq}

module _ (V : Type 0) where
  abbrev pub Metadata : Type 0
  Metadata = List (Text × V)

  -- `TurnContext`; no metadata is a nil map.
  pub record TurnContext : Type 0 where
    pub channel : Text
    pub chat_id : Text
    pub metadata : Option Metadata

  -- A `context.Context`, as far as `load` looks into it.
  abbrev pub Context : Type 0
  Context = Option TurnContext

module _ {V : Type 0} where
  -- The loop of `normalize` and of `overlayMetadata`: the trimmed keys of `md`, put into `base`.
  unfoldable pub put_trimmed : Metadata V → Metadata V → Metadata V
  unfolding trim_space
  put_trimmed base [] = base
  put_trimmed base ((k, v) ∷ md) =
      let key = trim_space k in
      let skipped = put_trimmed base md in
      let kept = put_trimmed (insert key v base) md in if is_empty key then skipped else kept

  abbrev pub nil_if_empty : Metadata V → Option (Metadata V)
  nil_if_empty [] = none
  nil_if_empty (e ∷ md) = some (e ∷ md)

  unfoldable pub normalize_metadata : Option (Metadata V) → Option (Metadata V)
  normalize_metadata none = none
  normalize_metadata (some md) = nil_if_empty (put_trimmed [] md)

  -- `normalize`.
  unfoldable pub normalize : TurnContext V → TurnContext V
  unfolding normalize_metadata put_trimmed insert text_eq trim_space
  normalize tc = record {
    channel = trim_space tc.channel;
    chat_id = trim_space tc.chat_id;
    metadata = normalize_metadata tc.metadata;
  }

  abbrev pub no_turn : TurnContext V
  no_turn = record { channel = []; chat_id = []; metadata = none }

  -- `load`, with the zero value that `With` and `WithMetadata` take where there is no turn.
  unfoldable pub previous : Context V → TurnContext V
  previous ctx = elim ctx [ none ↦ no_turn | some tc ↦ tc ]

  -- `mergePreserve`.
  unfoldable pub merge_preserve : TurnContext V → TurnContext V → TurnContext V
  merge_preserve prev next = record next {
    metadata = elim next.metadata [ some md ↦ some md | none ↦ prev.metadata ];
  }

  -- `With`.
  unfoldable pub with_turn : Context V → TurnContext V → Context V
  unfolding normalize merge_preserve previous
  with_turn parent tc = some (normalize (merge_preserve (previous parent) tc))

  -- `WithInbound`.
  unfoldable pub with_inbound : Context V → Text → Text → Context V
  unfolding with_turn
  with_inbound parent channel chat_id =
      with_turn parent (record { channel = channel; chat_id = chat_id; metadata = none })

  -- `overlayMetadata`, at an overlay that is not nil.
  unfoldable pub overlay_metadata : Option (Metadata V) → Metadata V → Option (Metadata V)
  overlay_metadata none [] = none
  overlay_metadata none (e ∷ overlay) = some (put_trimmed [] (e ∷ overlay))
  overlay_metadata (some []) [] = none
  overlay_metadata (some []) (e ∷ overlay) = some (put_trimmed [] (e ∷ overlay))
  overlay_metadata (some (b ∷ md)) overlay = some (put_trimmed (b ∷ md) overlay)

  -- `WithMetadata`; a nil overlay leaves the context.
  unfoldable pub with_metadata : Context V → Option (Metadata V) → Context V
  unfolding normalize overlay_metadata previous put_trimmed
  with_metadata parent overlay = elim overlay [
    | none ↦ parent
    | some md ↦
        let prev = previous parent in
        some (normalize (record prev { metadata = overlay_metadata prev.metadata md }))
  ]

  -- `From`.
  unfoldable pub from : Context V → Option (TurnContext V)
  unfolding normalize
  from ctx = elim ctx [
    | none ↦ none
    | some carried ↦
        let tc = normalize carried in
        if is_empty tc.channel || is_empty tc.chat_id then none else some tc
  ]

  -- `Channel` and `ChatID`; none where the turn is not complete.
  unfoldable pub channel_of : Context V → Option Text
  unfolding from
  channel_of ctx = elim (from ctx) [ none ↦ none | some tc ↦ some tc.channel ]

  unfoldable pub chat_id_of : Context V → Option Text
  unfolding from
  chat_id_of ctx = elim (from ctx) [ none ↦ none | some tc ↦ some tc.chat_id ]
