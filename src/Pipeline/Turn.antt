-- ===== src/Pipeline/Turn.antt =====
-- internal/kernel/pipeline/classify.go and turn.go.
use maven.Base.{
  ℕ, Bool, false, not, ◌&&◌, Option, none, some, List, [], ◌∷◌, ◌==◌, if◌then◌else◌, is_empty,
}
use maven.Base.Assoc.{insert}
use maven.Base.Text.{Text, codes, trim_space}
use maven.Session.{SessionMode}
use maven.Turnctx.{Metadata, Context, with_inbound, with_metadata}
use maven.Bus.Messages.{InboundMessage}
use maven.Pipeline.World.{Channel, Request}

-- `turnPlan`.
pub record TurnPlan : Type 0 where
  pub use_stream : Bool
  pub slash_name : Text
  pub session_mode : SessionMode

module _ {V B : Type 0} where
  -- `classifyTurn`; no channel is a nil one.
  unfoldable pub classify_turn : InboundMessage V B → Option Channel → TurnPlan
  classify_turn msg ch = record {
    use_stream = elim ch [
      | none ↦ false
      | some c ↦ not msg.hints.force_sync && c.is_stream_channel
    ];
    slash_name = msg.hints.slash_command;
    session_mode = msg.hints.session_mode;
  }

-- `mergePromptAndBlocks`; `text_block` makes a block of a text.
unfoldable pub merge_prompt_and_blocks : {B : Type 0} → (Text → B) → Text → List B → Text × List B
unfolding trim_space
merge_prompt_and_blocks text_block prompt blocks =
    if not (is_empty blocks) && not (is_empty (trim_space prompt))
    then ([], text_block prompt ∷ blocks)
    else (prompt, blocks)

module _ {V B : Type 0} (text_block : Text → B) where
  -- The request of `runResponseWithMetadata` and `runStreamWithMetadata`.
  unfoldable pub request_of : Text → Text → List B → Metadata V → Request V B
  unfolding merge_prompt_and_blocks
  request_of prompt session_id blocks md =
      let merged = merge_prompt_and_blocks text_block prompt blocks in
      record {
        prompt = merged.0;
        content_blocks = merged.1;
        session_id = session_id;
        metadata = if is_empty md then none else some md;
      }

module _ {V B : Type 0} (any : Text → V) (any_int : ℕ → V) where
  -- `turnContext`.
  unfoldable pub turn_context : Context V → InboundMessage V B → Text → Context V
  unfolding with_inbound with_metadata insert
  turn_context ctx msg session_key =
      let meta = (codes "session_id", any session_key) ∷ [] in
      with_metadata (with_inbound ctx msg.channel msg.chat_id) (
        some (
          if msg.hints.message_id == 0
          then meta
          else insert (codes "message_id") (any_int msg.hints.message_id) meta))
