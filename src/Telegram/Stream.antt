-- ===== src/Telegram/Stream.antt =====
-- internal/plugins/channel/telegram/stream_state.go and stream.go: the messages that show an answer
-- while it comes in. Times are in milliseconds, 0 being the zero time; each round reads the clock
-- once. The answers of the Telegram service, its text of HTML, the summaries of tool inputs and the
-- print of a time are parameters.
pub mod Events
pub mod Cooldown
pub mod Final
use maven.Base.{
  ℕ, suc, Bool, true, false, not, ◌&&◌, ◌||◌, Option, none, some, List, [], ◌∷◌, ◌++◌, ◌==◌, ◌+◌,
  ◌-◌, ltb, leb, if◌then◌else◌, is_empty,
}
use maven.Base.Assoc.{lookup, insert, erase}
use maven.Base.Text.{Text, codes, trim_space, text_eq}
use maven.Stringutil.{truncate_runes}
use maven.Telegram.Card.{
  StatusCard, new_status_card, add_tool, finish_tool, append_tool_output, set_iteration, render,
}

-- `streamMsg`; the id is 0 before the message is sent.
pub record StreamMsg : Type 0 where
  pub id : ℕ
  pub dirty : Bool
  pub last_edit : ℕ

-- The two messages of a stream.
pub data Shown : Type 0 where
  status content : Shown

pub record StreamState : Type 0 where
  pub use_draft : Bool
  pub show_card : Bool
  pub show_cursor : Bool
  pub cooldown_until : ℕ
  pub status_msg : StreamMsg
  pub content_msg : StreamMsg
  pub text_buf : Text
  pub stream_err : Text
  pub card : StatusCard
  pub pending_tool_input : List (Text × Text)
  pub block_tool_id : Text

pub data MessageRequest : Type 0 where
  placeholder edit draft : Text → MessageRequest

-- An answer of the service: the id of the message, or an error with the delay of
-- `telegramRetryAfter`, if it has one.
pub data Answer : Type 0 where
  done : ℕ → Answer
  refused : Option ℕ → Answer

-- A request with the time at which it was made, and its answer.
pub record MadeRequest : Type 0 where
  pub time : ℕ
  pub request : MessageRequest
  pub answer : Answer

pub record Responder : Type 0 where
  pub answers : ℕ → MessageRequest → Answer
  pub to_telegram_html : Text → Text
  pub summarize_tool_input : Text → Text → Text
  pub elapsed : ℕ → Text

abbrev pub unsent : StreamMsg
unsent = record { id = 0; dirty = false; last_edit = 0 }

-- `newStreamState`; `is_private` is whether the number of the chat is positive.
unfoldable pub new_stream_state : Bool → Text → StreamState
unfolding text_eq
new_stream_state is_private feedback = record {
  use_draft = is_private;
  show_card = text_eq feedback (codes "debug") || text_eq feedback (codes "normal");
  show_cursor = not (text_eq feedback (codes "silent"));
  cooldown_until = 0;
  status_msg = unsent;
  content_msg = unsent;
  text_buf = [];
  stream_err = [];
  card = new_status_card;
  pending_tool_input = [];
  block_tool_id = [];
}

abbrev pub status_min_gap : ℕ
status_min_gap = 500

abbrev pub status_heartbeat_delay : ℕ
status_heartbeat_delay = 5000

-- `setCooldown`.
unfoldable pub set_cooldown : ℕ → Option ℕ → StreamState → StreamState
set_cooldown now none s = s
set_cooldown now (some delay) s =
    if ltb s.cooldown_until (now + delay) then record s { cooldown_until = now + delay } else s

-- `inCooldown`.
unfoldable pub in_cooldown : ℕ → StreamState → Bool
in_cooldown now s = not (s.cooldown_until == 0) && ltb now s.cooldown_until

abbrev pub message_of : Shown → StreamState → StreamMsg
message_of status s = s.status_msg
message_of content s = s.content_msg

abbrev pub set_message : Shown → StreamMsg → StreamState → StreamState
set_message status m s = record s { status_msg = m }
set_message content m s = record s { content_msg = m }

abbrev pub mark_dirty : Shown → StreamState → StreamState
mark_dirty which s = set_message which (record (message_of which s) { dirty = true }) s

-- What an operation comes to: the state, and the requests that it made.
abbrev pub Outcome : Type 0
Outcome = StreamState × List MadeRequest

abbrev pub then_do : Outcome → (StreamState → Outcome) → Outcome
then_do (s, made) f = let next = f s in (next.0, made ++ next.1)

-- Whether a gap has passed since the last edit.
abbrev pub gap_passed : ℕ → ℕ → StreamMsg → Bool
gap_passed now gap m = m.last_edit == 0 || leb gap (now - m.last_edit)

abbrev pub status_is_due : ℕ → StreamState → Bool
status_is_due now s =
    s.show_card && (s.status_msg.dirty && gap_passed now status_min_gap s.status_msg)

abbrev pub heartbeat_is_due : ℕ → StreamState → Bool
heartbeat_is_due now s =
    s.show_card
    && (not (s.status_msg.id == 0)
        && (not s.status_msg.dirty && gap_passed now status_heartbeat_delay s.status_msg))

module _ (w : Responder) where
  -- A message behind a request for it.
  abbrev pub after_request : Shown → ℕ → MessageRequest → Answer → StreamState → Outcome
  after_request which now r (done id) s = (
    set_message which (record { id = id; dirty = false; last_edit = now }) s,
    record { time = now; request = r; answer = done id } ∷ [],
  )
  after_request which now r (refused delay) s = (
    mark_dirty which (set_cooldown now delay s),
    record { time = now; request = r; answer = refused delay } ∷ [],
  )

  -- An edit keeps the id of its message.
  abbrev pub keep_id : ℕ → Answer → Answer
  keep_id id (done n) = done id
  keep_id id (refused delay) = refused delay

  -- `upsertMessage`.
  unfoldable pub upsert_message : Shown → Text → ℕ → StreamState → Outcome
  unfolding in_cooldown set_cooldown
  upsert_message which text now s =
      let m = message_of which s in
      if is_empty text
      then (s, [])
      else if in_cooldown now s
      then (mark_dirty which s, [])
      else if m.id == 0
      then after_request which now (placeholder text) (w.answers now (placeholder text)) s
      else after_request which now (edit text) (keep_id m.id (w.answers now (edit text))) s

  -- `renderContent`.
  unfoldable pub render_content : StreamState → Text
  render_content s =
      if is_empty s.text_buf
      then []
      else w.to_telegram_html (if s.show_cursor then s.text_buf ++ codes "▍" else s.text_buf)

  -- `contentFlushGap`.
  unfoldable pub content_flush_gap : StreamState → ℕ
  content_flush_gap s = if s.use_draft then 400 else 1000

  -- `flushContent` behind the check of its gap.
  unfoldable pub send_content : ℕ → StreamState → Outcome
  unfolding render_content in_cooldown set_cooldown upsert_message truncate_runes
  send_content now s =
      let text = render_content s in
      let shortened = truncate_runes text 4096 in
      if is_empty text
      then (set_message content (record s.content_msg { dirty = false }) s, [])
      else if in_cooldown now s
      then (mark_dirty content s, [])
      else if s.use_draft
      then after_request content now (draft shortened)
          (keep_id s.content_msg.id (w.answers now (draft shortened))) s
      else upsert_message content text now s

  -- `flushContent`.
  unfoldable pub flush_content : ℕ → Bool → StreamState → Outcome
  unfolding content_flush_gap send_content
  flush_content now force s =
      if not s.content_msg.dirty
        || (not force && not (gap_passed now (content_flush_gap s) s.content_msg))
      then (s, [])
      else send_content now s

  unfoldable pub show_status : ℕ → StreamState → Outcome
  unfolding upsert_message render
  show_status now s = upsert_message status (render (w.elapsed now) s.card) now s

  -- `tryUpdateStatus`.
  unfoldable pub try_update_status : ℕ → StreamState → Outcome
  unfolding in_cooldown show_status
  try_update_status now s =
      if not s.show_card
      then (s, [])
      else if in_cooldown now s || not (gap_passed now status_min_gap s.status_msg)
      then (mark_dirty status s, [])
      else show_status now s

  abbrev pub show_if : Bool → ℕ → StreamState → Outcome
  show_if true now s = show_status now s
  show_if false now s = (s, [])

  -- `tickFlush`.
  unfoldable pub tick_flush : ℕ → Bool → StreamState → Outcome
  unfolding in_cooldown show_status flush_content
  tick_flush now force_content s =
      if in_cooldown now s
      then (s, [])
      else then_do (then_do (show_if (status_is_due now s) now s) (flush_content now force_content))
          (λ t. show_if (heartbeat_is_due now t) now t)
