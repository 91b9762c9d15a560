-- ===== src/Channels/Manager.antt =====
-- internal/kernel/channels/manager/manager.go: the running channels and their subscriptions at the
-- bus. What a channel does is a parameter; a map is gone through in the order of its list.
pub mod Names
pub mod Subscriptions
use maven.Base.{
  Bool, true, false, Option, none, some, List, [], ◌∷◌, ◌++◌, if◌then◌else◌, is_empty, is_some, map,
}
use maven.Base.Assoc.{lookup, insert}
use maven.Base.Result.{Result, ok, err}
use maven.Base.Text.{Text, codes, trim_space, text_eq}
use maven.Bus.Messages.{OutboundMessage}
use maven.Bus.Delivery.{
  Outcome, delivered, panicked, failed, Handler, Subscribers, set_outbound_subscriber,
}

-- What the manager calls of a channel. An error is its text.
pub record Operations (C V B : Type 0) : Type 0 where
  pub name : C → Text
  pub send : C → OutboundMessage V B → Outcome
  pub start_error : C → Option Text
  pub takes_slashes : C → Bool

abbrev pub Table : Type 0 → Type 0
Table C = List (Text × C)

-- `PipelineSlashDefinition`.
pub record PipelineSlash : Type 0 where
  pub name : Text
  pub description : Text

-- `ChannelManager`, with the subscribers of its bus.
pub record Manager (C V B : Type 0) : Type 0 where
  pub channels : Table C
  pub subs : Subscribers V B
  pub pipeline_slashes : List PipelineSlash

pub data ManagerError : Type 0 where
  nil_config invalid_config nil_registry empty_channel_name : ManagerError
  duplicate_channel : Text → ManagerError
  not_started : Text → ManagerError

-- What the operations do to channels.
pub data Action (C : Type 0) : Type 0 where
  stopped started : C → Action C
  configured : C → List PipelineSlash → Action C

-- What `Apply` reads: the configuration, whether it is valid, and the channels of the registry, of
-- which some may be nil.
pub data Wanted (C : Type 0) : Type 0 where
  no_config invalid no_registry : Wanted C
  wanted : List (Option C) → Wanted C

module _ {C : Type 0} where
  abbrev pub stopping : Table C → List (Action C)
  stopping old = map (λ e. stopped e.1) old

  abbrev pub starting : Table C → List (Action C)
  starting next = map (λ e. started e.1) next

module _ {C V B : Type 0} where
  -- The loop over the old channels of `Apply`, and that of `StopAll`: their subscriptions.
  unfoldable pub unsubscribe_all : Table C → Subscribers V B → Subscribers V B
  unfolding set_outbound_subscriber
  unsubscribe_all [] subs = subs
  unsubscribe_all ((n, c) ∷ old) subs = unsubscribe_all old (set_outbound_subscriber n none subs)

  -- `SetPipelineSlashCommands`.
  unfoldable pub set_pipeline_slash_commands : List PipelineSlash → Manager C V B → Manager C V B
  set_pipeline_slash_commands defs m = record m { pipeline_slashes = defs }

  -- `StopAll`.
  unfoldable pub stop_all : Manager C V B → Manager C V B × List (Action C)
  unfolding unsubscribe_all
  stop_all m =
      (record m { channels = []; subs = unsubscribe_all m.channels m.subs }, stopping m.channels)

  -- `EnabledChannels` and `GetChannel`.
  unfoldable pub enabled_channels : Manager C V B → List Text
  enabled_channels m = map (λ e. e.0) m.channels

  unfoldable pub get_channel : Manager C V B → Text → Option C
  unfolding lookup text_eq
  get_channel m name = lookup name m.channels

module _ {C V B : Type 0} (ops : Operations C V B) where
  -- The loop of `channelsFromRegistry`.
  unfoldable pub channels_from : List (Option C) → Table C → Result ManagerError (Table C)
  unfolding lookup insert text_eq
  channels_from [] out = ok out
  channels_from (none ∷ cs) out = channels_from cs out
  channels_from (some c ∷ cs) out =
      let rest = channels_from cs (insert (ops.name c) c out) in
      if is_empty (ops.name c)
      then err empty_channel_name
      else if is_some (lookup (ops.name c) out)
      then err (duplicate_channel (ops.name c))
      else rest

  -- The subscriber of a channel.
  abbrev pub wrap_outcome : Outcome → Outcome
  wrap_outcome delivered = delivered
  wrap_outcome panicked = panicked
  wrap_outcome (failed e) = failed (codes "channel: delivery failed: " ++ e)

  abbrev pub subscriber : C → Handler V B
  subscriber c = λ msg. wrap_outcome (ops.send c msg)

  -- The loop over the new channels.
  unfoldable pub subscribe_all : Table C → Subscribers V B → Subscribers V B
  unfolding set_outbound_subscriber
  subscribe_all [] subs = subs
  subscribe_all ((n, c) ∷ next) subs =
      subscribe_all next (set_outbound_subscriber n (some (subscriber c)) subs)

  -- `startAll`: the errors of the group, of which it gives the first to come; here the first in the
  -- order of the list.
  unfoldable pub start_error_of : Table C → Option ManagerError
  start_error_of [] = none
  start_error_of ((n, c) ∷ next) = elim (ops.start_error c) [
    | some e ↦ some (not_started n)
    | none ↦ start_error_of next
  ]

  -- The loop over the channels that show the commands in a menu.
  unfoldable pub configuring : List PipelineSlash → Table C → List (Action C)
  configuring slashes [] = []
  configuring slashes ((n, c) ∷ next) =
      let rest = configuring slashes next in
      if ops.takes_slashes c then configured c slashes ∷ rest else rest

  -- `Apply`, at the new channels.
  unfoldable pub replace :
      Table C → Manager C V B → Manager C V B × List (Action C) × Option ManagerError
  unfolding unsubscribe_all subscribe_all start_error_of configuring
  replace next m = (
    record m { channels = next; subs = subscribe_all next (unsubscribe_all m.channels m.subs) },
    stopping m.channels ++ (configuring m.pipeline_slashes next ++ starting next),
    start_error_of next,
  )

  abbrev pub after_channels :
      Result ManagerError (Table C)
      → Manager C V B
      → Manager C V B × List (Action C) × Option ManagerError
  after_channels (err e) m = (m, [], some e)
  after_channels (ok next) m = replace next m

  -- `Apply`: the manager after it, what it does, and its error.
  unfoldable pub apply :
      Wanted C → Manager C V B → Manager C V B × List (Action C) × Option ManagerError
  unfolding channels_from replace
  apply no_config m = (m, [], some nil_config)
  apply invalid m = (m, [], some invalid_config)
  apply no_registry m = (m, [], some nil_registry)
  apply (wanted cs) m = after_channels (channels_from cs []) m

  -- `StartAll`.
  unfoldable pub start_all : Manager C V B → List (Action C) × Option ManagerError
  unfolding start_error_of
  start_all m = (starting m.channels, start_error_of m.channels)
