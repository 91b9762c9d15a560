-- ===== src/Gateway/Applying.antt =====
-- internal/gateway/apply.go: what a configuration leaves behind, whether or not it is made the
-- running one.
use maven.Base.{Bool, true, false, ◌&&◌, Option, none, some, List, [], ◌++◌, ◌≡◌, ◌⊎◌, is_some}
use maven.Base.Result.{Result, ok, err}
use maven.Base.Text.{Text, text_eq}
use maven.Channels.Manager.{Operations, Manager, PipelineSlash, apply, set_pipeline_slash_commands}
use maven.Pipeline.Reload.{old_of}
use maven.Gateway.{Gateway, Reading, ApplyError}

-- A gateway that has a workspace keeps it.
abbrev pub same_workspace : Text → Option Text → Bool
same_workspace new none = true
same_workspace new (some w) = text_eq new w

module _ {T : Type 0} where
  -- The triggers start in order; where all start, all of them run.
  abbrev AllStarted : List T → Result Text (List T) → Type 0
  AllStarted ts (err e) = Unit
  AllStarted ts (ok started) = started ≡ ts

module _ {C V B R T : Type 0} where
  -- Whether the configuration is one for this gateway, so that the triggers are stopped, and whether
  -- all that stands before the runtime can be had, so that the factory is asked for one.
  abbrev pub passes_checks : Reading C V B R T → Gateway C V B R T → Bool
  passes_checks r g = same_workspace r.new_workspace g.workspace && r.level_ok

  abbrev pub asks_factory : Reading C V B R T → Gateway C V B R T → Bool
  asks_factory r g = passes_checks r g && (r.cron_ok && (r.prompt_ok && is_some r.slashes))

  -- It does not: the runtime stays, and the runtime that the factory has made for it, if it was asked
  -- for one, is closed. The triggers run on if the configuration is not one for this gateway, and
  -- none runs otherwise.
  pub record Fails (r : Reading C V B R T) (g : Gateway C V B R T)
      (o : Gateway C V B R T × Option ApplyError) : Type 0 where
    pub error : (e : ApplyError) × (o.1 ≡ some e)
    pub kept : (o.0.runtime ≡ g.runtime) × (o.0.workspace ≡ g.workspace)
    pub disposed :
        asks_factory r g ≡ true → o.0.closed_runtimes ≡ old_of r.factory ++ g.closed_runtimes
    pub unmade : asks_factory r g ≡ false → o.0.closed_runtimes ≡ g.closed_runtimes
    pub running : passes_checks r g ≡ false → o.0.triggers ≡ g.triggers
    pub quiet : passes_checks r g ≡ true → o.0.triggers ≡ []

module _ {C V B R T : Type 0} (ops : Operations C V B) where
  -- The manager is the one that its `Apply` leaves with the commands and the channels that were read,
  -- and it gave no error.
  abbrev pub ChannelsRun : Reading C V B R T → Gateway C V B R T → Manager C V B → Type 0
  ChannelsRun r g m =
      (slashes : List PipelineSlash) × (r.slashes ≡ some slashes)
      × (m ≡ (apply ops r.channels (set_pipeline_slash_commands slashes g.manager)).0)
      × ((apply ops r.channels (set_pipeline_slash_commands slashes g.manager)).2 ≡ none)

  -- The configuration runs: its channels do, its runtime is the current one and the old one is
  -- closed; with no error its triggers run, and with one none does.
  pub record Runs (r : Reading C V B R T) (g : Gateway C V B R T)
      (o : Gateway C V B R T × Option ApplyError) : Type 0 where
    pub accepted : asks_factory r g ≡ true
    pub channels : ChannelsRun r g o.0.manager
    pub swapped : o.0.runtime ≡ r.factory
    pub old_closed : o.0.closed_runtimes ≡ old_of g.runtime ++ g.closed_runtimes
    pub taken : o.0.workspace ≡ some r.new_workspace
    pub started : (o.1 ≡ none) → o.0.triggers ≡ r.new_triggers
    pub stopped : ((e : ApplyError) × (o.1 ≡ some e)) → o.0.triggers ≡ []

  abbrev Ends :
      Reading C V B R T → Gateway C V B R T → Gateway C V B R T × Option ApplyError → Type 0
  Ends r g o = Runs r g o ⊎ Fails r g o

  -- The triggers are stopped, and every check before the factory has been passed.
  module _ (r : Reading C V B R T) (g : Gateway C V B R T) (passed : passes_checks r g ≡ true) where
    abbrev halted : Gateway C V B R T
    halted = record g { triggers = [] }
