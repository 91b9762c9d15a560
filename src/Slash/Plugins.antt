-- ===== src/Slash/Plugins.antt =====
-- internal/kernel/slash/from_plugin.go: the commands of plugins in the registry; and
-- internal/kernel/slashkind/kind.go: where a command is handled.
use maven.Base.{◌||◌, Option, none, some, List, [], ◌∷◌, if◌then◌else◌, is_empty}
use maven.Base.Result.{Result, ok, err}
use maven.Base.Text.{Text, codes, trim_space, text_eq}
use maven.Base.Unicode.{Unicode, to_lower}
use maven.Slash.Parser.{Invocation}
use maven.Slash.Registry.{Definition, Registry, RegisterError, register}
use maven.Slash.Dispatch.{Reply, Handler}
use maven.Turnctx.{Metadata, Context}

module _ (V E : Type 0) where
  -- `plugin.SlashResult`.
  pub record SlashResult : Type 0 where
    pub command : Text
    pub output : Text
    pub metadata : Metadata V
    pub post_action : Text

  -- `plugin.SlashCommand`, with its handler.
  pub record SlashCommand : Type 0 where
    pub definition : Definition
    pub run_command : Context V → Invocation → Result E SlashResult

module _ {V E : Type 0} where
  abbrev pub to_reply : Result E (SlashResult V E) → Result E (Reply V)
  to_reply (err e) = err e
  to_reply (ok out) = ok (record {
    command = out.command;
    output = out.output;
    metadata = out.metadata;
    post_action = none;
  })

  -- `pluginSlashHandler.Handle`, which does not pass on the action of a plugin.
  unfoldable pub plugin_slash_handler : SlashCommand V E → Handler V E
  plugin_slash_handler c ctx inv = to_reply (c.run_command ctx inv)

  -- `RegisterPluginCommands`: the name of the command at which it stops, with its error.
  unfoldable pub register_plugin_commands :
      Unicode
      → List (SlashCommand V E)
      → Registry (Handler V E)
      → Result (Text × RegisterError) (Registry (Handler V E))
  unfolding register plugin_slash_handler
  register_plugin_commands u [] r = ok r
  register_plugin_commands u (c ∷ cs) r =
      elim (register u c.definition (some (plugin_slash_handler c)) r) [
        | err e ↦ err (c.definition.name, e)
        | ok s ↦ register_plugin_commands u cs s
      ]

-- `CommandKind`.
pub data CommandKind : Type 0 where
  local_command agent_command pipeline_command : CommandKind

-- `CommandKind.String`.
unfoldable pub kind_string : CommandKind → Text
kind_string local_command = codes "local"
kind_string agent_command = codes "agent"
kind_string pipeline_command = codes "pipeline"

-- `CommandKind.UnmarshalText`; none is the error.
unfoldable pub unmarshal_kind : Unicode → Text → Option CommandKind
unfolding to_lower trim_space text_eq
unmarshal_kind u text =
    let t = to_lower u (trim_space text) in
    if text_eq t (codes "local")
    then some local_command
    else if is_empty t || text_eq t (codes "agent")
    then some agent_command
    else if text_eq t (codes "pipeline")
    then some pipeline_command
    else none
