-- ===== src/Postaction.antt =====
-- internal/kernel/agent/postaction/postaction.go: what commands do to the session of a chat before
-- and after a turn. The hook before a compaction is a Boolean: whether there is one.
pub mod Compaction
pub mod Replies
pub mod Tests
use maven.Base.{
  Bool, true, false, ◌||◌, Option, none, some, List, [], ◌∷◌, ◌++◌, if◌then◌else◌, is_empty,
}
use maven.Base.Result.{Result, ok, err}
use maven.Base.Text.{Text, codes, trim_space, text_eq}
use maven.Sessionid.{Env}
use maven.Session.{Router, RouterError, rotate, set, current}
use maven.Slash.Dispatch.{Reply, PostAction, compact_rotate, CompactResponseMode, ack, summary}
use maven.Bus.Messages.{InboundMessage, stable_route_key}

-- `handler`, with the files of summaries that it has written: the name and the text of each.
pub record Handler : Type 0 where
  pub router : Router
  pub workspace : Text
  pub has_flush : Bool
  pub seeds : List (Text × Text)

pub data PostError : Type 0 where
  empty_summary bad_payload not_seeded : PostError
  not_rotated : RouterError → PostError

-- What the surroundings give for one call: the id's parts, and which writes of files work.
pub record Surroundings : Type 0 where
  pub env : Env
  pub rotate_saved : Bool
  pub seed_written : Bool
  pub undo_saved : Bool

abbrev pub set_router : Router → Handler → Handler
set_router r h = record h { router = r }

abbrev pub builtin_result :
    {A : Type 0} → Router × Result RouterError A → Handler → Handler × Option (Option RouterError)
builtin_result (r, ok a) h = (set_router r h, some none)
builtin_result (r, err e) h = (set_router r h, some (some e))

module _ {V B : Type 0} where
  -- `HandleBuiltin`: none is a message that is no builtin command.
  unfoldable pub handle_builtin :
      Env → Bool → InboundMessage V B → Handler → Handler × Option (Option RouterError)
  unfolding rotate stable_route_key trim_space text_eq
  handle_builtin env saved msg h =
      if text_eq (trim_space msg.hints.builtin_command) (codes "new")
      then builtin_result (rotate env saved h.router (stable_route_key msg)) h
      else (h, none)

module _ {V : Type 0} where
  -- `extractPostAction`.
  unfoldable pub extract_post_action : List (Reply V) → Option PostAction
  extract_post_action [] = none
  extract_post_action (ex ∷ trail) = elim ex.post_action [
    | some a ↦ some a
    | none ↦ extract_post_action trail
  ]

-- `seedSessionSummary`, with the file that it writes.
unfoldable pub seed_session_summary : Bool → Text → Text → Text → Result PostError (Text × Text)
seed_session_summary written workspace session_id text =
    if is_empty (trim_space workspace)
      || (is_empty (trim_space session_id) || is_empty (trim_space text))
    then err bad_payload
    else if written
    then ok (
      trim_space session_id ++ codes ".json",
      codes "Previous conversation summary:\n" ++ trim_space text,
    )
    else err not_seeded

abbrev pub response_of : CompactResponseMode → Text → Text
response_of ack text = codes "✅ Conversation compacted and continued in a fresh session."
response_of summary text = text

-- `HandlePostResponse` behind the rotation.
abbrev pub after_seed :
    Surroundings
    → Text
    → CompactResponseMode
    → Text
    → Handler
    → Text
    → Result PostError (Text × Text)
    → Handler × Result PostError Text
after_seed w key mode text h old (ok seed) =
    (record h { seeds = seed ∷ h.seeds }, ok (response_of mode text))
after_seed w key mode text h old (err e) =
    (set_router (set w.undo_saved h.router key old).0 h, err e)

abbrev pub after_rotate :
    Surroundings
    → Text
    → CompactResponseMode
    → Text
    → Handler
    → Router × Result RouterError (Text × Text)
    → Handler × Result PostError Text
after_rotate w key mode text h (r, err e) = (set_router r h, err (not_rotated e))
after_rotate w key mode text h (r, ok (old, id)) =
    after_seed w key mode text (set_router r h) old
      (seed_session_summary w.seed_written h.workspace id text)

-- The compaction of a chat, given the model's output.
unfoldable pub compact :
    Surroundings → Text → CompactResponseMode → Text → Handler → Handler × Result PostError Text
compact w key mode output h =
    let text = trim_space output in
    if is_empty text
    then (h, err empty_summary)
    else after_rotate w key mode text h (rotate w.env w.rotate_saved h.router key)

-- The session for which the hook is called before the compaction, if it is.
unfoldable pub flushed_session : Text → Text → Handler → Option Text
unfolding current
flushed_session key output h =
    if is_empty (trim_space output)
    then none
    else if h.has_flush
    then some (current h.router key)
    else none

module _ {V : Type 0} where
  -- `HandlePostResponse`: none where no reply of the trail asks for an action.
  unfoldable pub handle_post_response :
      Surroundings
      → Text
      → Text
      → List (Reply V)
      → Handler
      → Handler × Option (Result PostError Text)
  unfolding extract_post_action compact seed_session_summary rotate set trim_space
  handle_post_response w key output trail h = elim (extract_post_action trail) [
    | none ↦ (h, none)
    | some (compact_rotate mode) ↦ let r = compact w key mode output h in (r.0, some r.1)
  ]
