-- ===== src/Slash/Dispatch/Compact.antt =====
-- internal/kernel/slash/builtin_compact.go and factory.go: the command that compacts a conversation.
use maven.Base.{some, [], ◌∷◌, ◌++◌, if◌then◌else◌, is_empty}
use maven.Base.Result.{Result, ok}
use maven.Base.Text.{Text, codes, trim_space, join}
use maven.Base.Unicode.{Unicode}
use maven.Slash.Registry.{Registry, RegisterError, register}
use maven.Slash.Dispatch.{Handler, compact_rotate, ack}

-- The prompt that goes before the model's.
abbrev pub compact_prompt : Text
compact_prompt =
    codes "Create a compact continuation summary for this conversation. "
    ++ codes "This output is for the assistant, not for the end user. "
    ++ codes
        "Write only the summary text. Capture goals, decisions, constraints, preferences, important file paths, open questions, and the best next steps. "
    ++ codes
        "Do not address the user, do not mention compacting, and do not include markdown fences."

module _ {V E : Type 0} (any : Text → V) where
  -- `handleCompact`.
  unfoldable pub handle_compact : Handler V E
  unfolding join trim_space
  handle_compact ctx inv =
      let focus = trim_space (join (codes " ") inv.args) in
      let extra =
        if is_empty focus then [] else codes " Give extra attention to: " ++ (focus ++ codes ".") in
      ok (record {
        command = [];
        output = [];
        metadata = (codes "api.prepend_prompt", any (compact_prompt ++ extra)) ∷ [];
        post_action = some (compact_rotate ack);
      })

  -- `BuiltIns`.
  unfoldable pub built_ins : Unicode → Result RegisterError (Registry (Handler V E))
  unfolding register
  built_ins u =
      register u
        (record {
          name = codes "compact";
          description =
              codes "Compress the current conversation into a fresh continuation context.";
        })
        (some handle_compact) []
