-- ===== src/Telegram/Stream/Events.antt =====
-- internal/plugins/channel/telegram/stream_state.go and stream.go: what an event of the stream does,
-- and the loop over the events and the ticks.
use maven.Base.{
  ℕ, Bool, true, false, ◌&&◌, ◌||◌, not, Option, none, some, List, [], ◌∷◌, ◌++◌, ◌+◌,
  if◌then◌else◌, is_empty,
}
use maven.Base.Assoc.{lookup, insert, erase}
use maven.Base.Text.{Text, codes, trim_space, text_eq}
use maven.Telegram.Card.{add_tool, finish_tool, append_tool_output, set_iteration}
use maven.Telegram.Stream.{
  StreamState, Responder, Outcome, try_update_status, flush_content, tick_flush, then_do,
}

-- `api.StreamEvent`, with what `handleEvent` reads of each type: a start of a block has the id of
-- its tool, if it is of one; a delta whether it is a part of JSON, the text that it decodes to, and
-- its own text; the output of a tool its text, if it is one, and whether it is of stderr.
pub data StreamEvent : Type 0 where
  iteration_start : Option ℕ → StreamEvent
  content_block_start : Option Text → StreamEvent
  content_block_stop no_delta other_event : StreamEvent
  content_block_delta : Bool → Option Text → Text → StreamEvent
  tool_execution_start : Text → Text → StreamEvent
  tool_execution_output : Text → Option Text → Bool → StreamEvent
  tool_execution_result : Text → Bool → StreamEvent
  error_event : Text → StreamEvent

abbrev pub text_or_empty : Option Text → Text
text_or_empty none = []
text_or_empty (some t) = t

abbrev pub iterate : Option ℕ → StreamState → StreamState
iterate none s = s
iterate (some n) s = record s { card = set_iteration (n + 1) s.card }

-- A part of the input of a tool.
unfoldable pub add_tool_input : Option Text → StreamState → StreamState
unfolding lookup insert text_eq
add_tool_input none s = s
add_tool_input (some chunk) s = record s {
  pending_tool_input =
      insert s.block_tool_id (text_or_empty (lookup s.block_tool_id s.pending_tool_input) ++ chunk)
        s.pending_tool_input;
}

-- What the loop of `SendStream` waits for, with the time of its round.
pub data Round : Type 0 where
  ticked : ℕ → Round
  arrived : ℕ → StreamEvent → Round

-- A part of the answer.
abbrev pub add_text : Text → StreamState → StreamState
add_text text s = record s {
  text_buf = s.text_buf ++ text;
  content_msg = record (s.content_msg) { dirty = true };
}

module _ (w : Responder) where
  -- The start of a tool, with what has come in as its input.
  unfoldable pub start_tool : Text → Text → StreamState → StreamState
  unfolding lookup erase text_eq add_tool
  start_tool id name s = elim (lookup id s.pending_tool_input) [
    | none ↦ record s { card = add_tool id name [] s.card }
    | some raw ↦ record s {
      card = add_tool id name (w.summarize_tool_input name raw) s.card;
      pending_tool_input = erase id s.pending_tool_input;
    }
  ]

  abbrev pub with_marker : Bool → Text → Text
  with_marker is_stderr chunk = if is_stderr then codes "[stderr] " ++ chunk else chunk

  -- `handleEvent`.
  unfoldable pub handle_event : ℕ → StreamEvent → StreamState → Outcome
  unfolding try_update_status flush_content add_tool_input start_tool append_tool_output finish_tool
      set_iteration trim_space
  handle_event now (iteration_start n) s =
      try_update_status w now (record (iterate n s) { text_buf = [] })
  handle_event now (content_block_start id) s = (record s { block_tool_id = text_or_empty id }, [])
  handle_event now content_block_stop s = (record s { block_tool_id = [] }, [])
  handle_event now no_delta s = (s, [])
  handle_event now other_event s = (s, [])
  handle_event now (content_block_delta is_json chunk text) s =
      if is_json && not (is_empty s.block_tool_id)
      then (add_tool_input chunk s, [])
      else if is_empty text
      then (s, [])
      else if s.use_draft
      then flush_content w now false (add_text text s)
      else (add_text text s, [])
  handle_event now (tool_execution_start id name) s = try_update_status w now (start_tool id name s)
  handle_event now (tool_execution_output id output is_stderr) s =
      if not s.show_card || is_empty (text_or_empty output)
      then (s, [])
      else try_update_status w now (record s {
        card = append_tool_output id (with_marker is_stderr (text_or_empty output)) s.card;
      })
  handle_event now (tool_execution_result id is_failed) s =
      try_update_status w now (record s { card = finish_tool id is_failed s.card })
  handle_event now (error_event text) s =
      try_update_status w now (record s { stream_err = trim_space text })

  unfoldable pub round : Round → StreamState → Outcome
  unfolding tick_flush handle_event
  round (ticked now) s = tick_flush w now false s
  round (arrived now e) s = handle_event now e s

  -- The loop, and the flush behind it.
  unfoldable pub stream_rounds : List Round → StreamState → Outcome
  unfolding round
  stream_rounds [] s = (s, [])
  stream_rounds (r ∷ rs) s = then_do (round r s) (stream_rounds rs)

  unfoldable pub stream : List Round → ℕ → StreamState → Outcome
  unfolding stream_rounds tick_flush
  stream rs last s = then_do (stream_rounds rs s) (tick_flush w last true)

-- The text that `finalizeSend` sends.
unfoldable pub final_text : StreamState → Text
final_text s =
    if not (is_empty s.text_buf)
    then s.text_buf
    else if not (is_empty s.stream_err)
    then codes "stream failed: " ++ s.stream_err
    else codes "agent return null"
