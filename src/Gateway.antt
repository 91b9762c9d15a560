-- ===== src/Gateway.antt =====
-- internal/gateway/apply.go and triggers.go: a configuration is made the running one. What Apply
-- reads from the plugins, the files and the runtime factory is a record; `applyMu` makes it one step.
pub mod Applying
pub mod Tests
use maven.Base.{Bool, true, false, not, Option, none, some, List, [], ◌∷◌, ◌++◌, if◌then◌else◌}
use maven.Base.Result.{Result, ok, err}
use maven.Base.Text.{Text, text_eq}
use maven.Channels.Manager.{
  Operations, Manager, ManagerError, Action, Wanted, PipelineSlash, apply,
  set_pipeline_slash_commands,
}
use maven.Pipeline.Reload.{old_of}
use maven.Slash.Registry.{Definition}

module _ (C V B R T : Type 0) where
  -- `Gateway`, as far as Apply changes it: the workspace of its configuration, the manager of the
  -- channels, the runtime of the pipeline, the running triggers, and the runtimes that are closed.
  pub record Gateway : Type 0 where
    pub workspace : Option Text
    pub manager : Manager C V B
    pub runtime : Option R
    pub triggers : List T
    pub closed_runtimes : List R

  -- What Apply reads for a configuration: its workspace, whether its log level, the cron service
  -- and the prompt can be had, the commands of BuiltIns, the plugins and the gateway, the runtime of
  -- the factory, the channels, and the triggers with the errors of their starts.
  pub record Reading : Type 0 where
    pub new_workspace : Text
    pub level_ok : Bool
    pub cron_ok : Bool
    pub prompt_ok : Bool
    pub slashes : Option (List PipelineSlash)
    pub factory : Option R
    pub channels : Wanted C
    pub new_triggers : List T
    pub trigger_error : T → Option Text

pub data ApplyError : Type 0 where
  workspace_changed bad_level no_cron no_prompt no_slashes no_runtime : ApplyError
  channels_failed : ManagerError → ApplyError
  trigger_failed : Text → ApplyError

-- `pipelineSlashDefinitions`.
unfoldable pub pipeline_slash_definitions : List Definition → List PipelineSlash
pipeline_slash_definitions [] = []
pipeline_slash_definitions (d ∷ ds) =
    record { name = d.name; description = d.description } ∷ pipeline_slash_definitions ds

module _ {T : Type 0} where
  -- The loop of `startTriggers`: the started ones, or the error, behind which they are stopped.
  unfoldable pub start_each : (T → Option Text) → List T → Result Text (List T)
  start_each error [] = ok []
  start_each error (t ∷ ts) = elim (error t) [
    | some e ↦ err e
    | none ↦ elim (start_each error ts) [ err e ↦ err e | ok started ↦ ok (t ∷ started) ]
  ]

module _ {C V B R T : Type 0} where
  -- `validateReload`.
  unfoldable pub validate_reload : Text → Gateway C V B R T → Bool
  unfolding text_eq
  validate_reload workspace g = elim g.workspace [ none ↦ true | some w ↦ text_eq workspace w ]

  -- The end of Apply: `startTriggers`.
  abbrev pub after_triggers :
      Result Text (List T) → Gateway C V B R T → Gateway C V B R T × Option ApplyError
  after_triggers (err e) g = (g, some (trigger_failed e))
  after_triggers (ok ts) g = (record g { triggers = ts }, none)

module _ {C V B R T : Type 0} (ops : Operations C V B) where
  -- `reloadPipeline` and what stands behind it: the exchange of the runtime, or its close.
  abbrev pub after_apply :
      R
      → Reading C V B R T
      → Manager C V B × List (Action C) × Option ManagerError
      → Gateway C V B R T
      → Gateway C V B R T × Option ApplyError
  after_apply rt r (m, actions, some e) g =
      (record g { manager = m; closed_runtimes = rt ∷ g.closed_runtimes }, some (channels_failed e))
  after_apply rt r (m, actions, none) g =
      after_triggers (start_each r.trigger_error r.new_triggers) (record g {
        manager = m;
        runtime = some rt;
        closed_runtimes = old_of g.runtime ++ g.closed_runtimes;
        workspace = some r.new_workspace;
      })

  abbrev pub after_factory :
      List PipelineSlash
      → Option R
      → Reading C V B R T
      → Gateway C V B R T
      → Gateway C V B R T × Option ApplyError
  after_factory slashes none r g = (g, some no_runtime)
  after_factory slashes (some rt) r g =
      after_apply rt r (apply ops r.channels (set_pipeline_slash_commands slashes g.manager)) g

  abbrev pub after_slashes :
      Option (List PipelineSlash)
      → Reading C V B R T
      → Gateway C V B R T
      → Gateway C V B R T × Option ApplyError
  after_slashes none r g = (g, some no_slashes)
  after_slashes (some slashes) r g = after_factory slashes r.factory r g

  -- `Apply` behind `stopTriggers`.
  unfoldable pub after_stop :
      Reading C V B R T → Gateway C V B R T → Gateway C V B R T × Option ApplyError
  unfolding start_each apply set_pipeline_slash_commands
  after_stop r g =
      if not r.cron_ok
      then (g, some no_cron)
      else if not r.prompt_ok
      then (g, some no_prompt)
      else after_slashes r.slashes r g

  -- `Apply`.
  unfoldable pub apply_config :
      Reading C V B R T → Gateway C V B R T → Gateway C V B R T × Option ApplyError
  unfolding validate_reload after_stop
  apply_config r g =
      if not (validate_reload r.new_workspace g)
      then (g, some workspace_changed)
      else if not r.level_ok
      then (g, some bad_level)
      else after_stop r (record g { triggers = [] })
