-- ===== src/Plugin.antt =====
-- internal/kernel/plugin/registry.go: what the plugins contribute, and their lifecycle. A plugin is
-- its name, its contributions, of which it may have none of a kind, and the errors of its start and
-- of its stop. What is contributed, and the configuration, are parameters.
use maven.Base.{Bool, Option, none, some, List, [], ◌∷◌, ◌++◌, keep, if◌then◌else◌}
use maven.Base.Text.{Text, text_eq}

-- The kinds of contributions.
pub record Kinds : Type 1 where
  pub Config : Type 0
  pub Channel : Type 0
  pub Tool : Type 0
  pub Skill : Type 0
  pub Trigger : Type 0
  pub SlashCommand : Type 0
  pub TtsProvider : Type 0
  pub SttProvider : Type 0

pub record Plugin (k : Kinds) : Type 0 where
  pub name : Text
  pub channels : Option (k.Config → List k.Channel)
  pub tools : Option (k.Config → List k.Tool)
  pub skills : Option (k.Config → List k.Skill)
  pub triggers : Option (k.Config → List k.Trigger)
  pub slash_commands : Option (k.Config → List k.SlashCommand)
  pub tts_provider : Option (k.Config → Option k.TtsProvider)
  pub stt_provider : Option (k.Config → Option k.SttProvider)
  pub takes_event_bus : Bool
  pub takes_turn_journal : Bool
  pub is_memory : Bool
  pub start_error : Option Text
  pub stop_error : Option Text

-- `Registry`; none is a nil one.
abbrev pub PluginRegistry : Kinds → Type 0
PluginRegistry k = Option (List (Plugin k))

-- An error of a lifecycle call: the plugin's name and what it gave.
pub record LifecycleError : Type 0 where
  pub plugin : Text
  pub cause : Text

abbrev pub contribution : {C X : Type 0} → C → Option (C → List X) → List X
contribution cfg none = []
contribution cfg (some f) = f cfg

abbrev pub provided : {C X : Type 0} → C → Option (C → Option X) → Option X
provided cfg none = none
provided cfg (some f) = f cfg

module _ {k : Kinds} where
  abbrev pub plugins_of : PluginRegistry k → List (Plugin k)
  plugins_of none = []
  plugins_of (some ps) = ps

  unfoldable pub find_in : Text → List (Plugin k) → Option (Plugin k)
  unfolding text_eq
  find_in name [] = none
  find_in name (p ∷ ps) = if text_eq p.name name then some p else find_in name ps

  -- `FindByName`.
  unfoldable pub find_by_name : Text → PluginRegistry k → Option (Plugin k)
  unfolding find_in
  find_by_name name r = find_in name (plugins_of r)

  -- The loop of the functions that collect.
  unfoldable pub collect :
      {X : Type 0} → (Plugin k → Option (k.Config → List X)) → k.Config → List (Plugin k) → List X
  collect part cfg [] = []
  collect part cfg (p ∷ ps) = contribution cfg (part p) ++ collect part cfg ps

  abbrev pub collected :
      {X : Type 0}
      → (Plugin k → Option (k.Config → List X))
      → PluginRegistry k
      → Option k.Config
      → List X
  collected part r none = []
  collected part r (some cfg) = collect part cfg (plugins_of r)

  unfoldable pub all_channels : PluginRegistry k → Option k.Config → List k.Channel
  unfolding collect
  all_channels r cfg = collected (λ p. p.channels) r cfg

  unfoldable pub all_tools : PluginRegistry k → Option k.Config → List k.Tool
  unfolding collect
  all_tools r cfg = collected (λ p. p.tools) r cfg

  unfoldable pub all_skills : PluginRegistry k → Option k.Config → List k.Skill
  unfolding collect
  all_skills r cfg = collected (λ p. p.skills) r cfg

  unfoldable pub all_triggers : PluginRegistry k → Option k.Config → List k.Trigger
  unfolding collect
  all_triggers r cfg = collected (λ p. p.triggers) r cfg

  unfoldable pub all_slash_commands : PluginRegistry k → Option k.Config → List k.SlashCommand
  unfolding collect
  all_slash_commands r cfg = collected (λ p. p.slash_commands) r cfg

  -- The loop of the functions that look for a provider: the first that is not nil.
  unfoldable pub first_provider :
      {X : Type 0}
      → (Plugin k → Option (k.Config → Option X))
      → k.Config
      → List (Plugin k)
      → Option X
  first_provider part cfg [] = none
  first_provider part cfg (p ∷ ps) = elim (provided cfg (part p)) [
    | some x ↦ some x
    | none ↦ first_provider part cfg ps
  ]

  abbrev pub provider_of :
      {X : Type 0}
      → (Plugin k → Option (k.Config → Option X))
      → PluginRegistry k
      → Option k.Config
      → Option X
  provider_of part r none = none
  provider_of part r (some cfg) = first_provider part cfg (plugins_of r)

  unfoldable pub find_tts_provider : PluginRegistry k → Option k.Config → Option k.TtsProvider
  unfolding first_provider
  find_tts_provider r cfg = provider_of (λ p. p.tts_provider) r cfg

  unfoldable pub find_stt_provider : PluginRegistry k → Option k.Config → Option k.SttProvider
  unfolding first_provider
  find_stt_provider r cfg = provider_of (λ p. p.stt_provider) r cfg

  -- The plugins that pass a type assertion, which `SetEventBus`, `ConfigureTurnJournals` and
  -- `MemoryPlugins` go through.
  unfoldable pub plugins_that : (Plugin k → Bool) → PluginRegistry k → List (Plugin k)
  plugins_that test r = keep test (plugins_of r)

  -- The loop of `Start` and of `Stop`: the plugins that are called, and the error.
  unfoldable pub call_each :
      (Plugin k → Option Text) → List (Plugin k) → List (Plugin k) × Option LifecycleError
  call_each error [] = ([], none)
  call_each error (p ∷ ps) =
      let rest = call_each error ps in
      elim (error p) [
        | some e ↦ (p ∷ [], some (record { plugin = p.name; cause = e }))
        | none ↦ (p ∷ rest.0, rest.1)
      ]

  -- `Start` and `Stop`.
  unfoldable pub start_plugins : PluginRegistry k → List (Plugin k) × Option LifecycleError
  unfolding call_each
  start_plugins r = call_each (λ p. p.start_error) (plugins_of r)

  unfoldable pub stop_plugins : PluginRegistry k → List (Plugin k) × Option LifecycleError
  unfolding call_each
  stop_plugins r = call_each (λ p. p.stop_error) (plugins_of r)
