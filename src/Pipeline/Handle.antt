-- ===== src/Pipeline/Handle.antt =====
-- internal/kernel/pipeline/pipeline.go: `handle`, from an inbound message to the state of the chats'
-- sessions and the list of what is done, in order. The mutex `turnMu` keeps the runtime for the
-- whole turn.
use maven.Base.{ℕ, Bool, ◌&&◌, Option, none, some, List, [], ◌∷◌, ◌++◌, if◌then◌else◌, is_empty}
use maven.Base.Decimal.{is_int64}
use maven.Base.Result.{Result, ok, err}
use maven.Base.Text.{Text, codes}
use maven.Base.Unicode.{Unicode}
use maven.Session.{RouterError, SessionMode, current_mode, isolated_mode, resolve_sdk_session_id}
use maven.Turnctx.{Metadata}
use maven.Slash.Registry.{Registry}
use maven.Slash.Dispatch.{Reply, Outcome, PreTurnError, pre_turn}
use maven.Slash.Dispatch as Dispatch
use maven.Postaction.{
  Handler, PostError, handle_builtin, handle_post_response, extract_post_action, flushed_session,
}
use maven.Bus.Messages.{
  InboundMessage, OutboundMessage, PublishError, normalize_outbound, stable_route_key,
}
use maven.Pipeline.Turn.{TurnPlan, classify_turn, request_of, turn_context}
use maven.Pipeline.World.{
  Channel, TurnError, Cause, builtin_failed, command_failed, post_action_failed, turn_failed,
  Effect, published, emitted, turn_completed, pulsed, preprocessed, stream_began, streamed,
  stream_ended, ran_model, flushed, World,
}

abbrev pub user_err_message : Text
user_err_message = codes "Sorry, I encountered an error processing your message."

abbrev pub user_err_command : Text
user_err_command = codes "Sorry, I encountered an error processing your command."

module _ {V B : Type 0} where
  abbrev pub outbound_to : Text → Text → Text → Option (Metadata V) → OutboundMessage V B
  outbound_to channel chat_id content md = record {
    channel = channel;
    chat_id = chat_id;
    content = content;
    reply_to = [];
    media = [];
    metadata = md;
    content_blocks = [];
  }

  abbrev pub add_effects :
      List (Effect V B) → Handler × List (Effect V B) → Handler × List (Effect V B)
  add_effects es (h, fs) = (h, es ++ fs)

abbrev pub result_or :
    Text → Handler × Option (Result PostError Text) → Handler × Result PostError Text
result_or output (h, none) = (h, ok output)
result_or output (h, some r) = (h, r)

abbrev pub output_of : Option Text → Text
output_of none = []
output_of (some t) = t

abbrev pub output_result : Result TurnError (Option Text) → Result TurnError Text
output_result (err e) = err e
output_result (ok resp) = ok (output_of resp)

module _ {V B E : Type 0} (w : World V B E) where
  -- `PublishOutbound` of the bus.
  unfoldable pub publish_outbound : OutboundMessage V B → Option PublishError
  unfolding normalize_outbound
  publish_outbound msg = elim (normalize_outbound msg) [ err e ↦ some e | ok m ↦ w.enqueue m ]

  -- A reply to a message, whose publish may fail.
  unfoldable pub reply_with : InboundMessage V B → Text → List (Effect V B)
  unfolding publish_outbound
  reply_with msg content =
      let m = outbound_to msg.channel msg.chat_id content msg.transport_meta in
      published m (publish_outbound m) ∷ []

  -- `sendError`.
  unfoldable pub send_error : Text → Text → Text → Cause E → List (Effect V B)
  unfolding publish_outbound
  send_error channel chat_id user_msg cause =
      let m = outbound_to channel chat_id user_msg none in
      published m (publish_outbound m) ∷ elim (publish_outbound m) [
        | none ↦ []
        | some e ↦
            emitted (record {
              typ = codes "outbound.delivery_failed";
              attrs =
                  (codes "channel", channel)
                  ∷ (codes "chat_id", chat_id)
                  ∷ (codes "error", w.describe_publish e)
                  ∷ (codes "cause", w.describe cause)
                  ∷ [];
            })
            ∷ pulsed
            ∷ []
      ]

  -- `reportStreamFailed`.
  unfoldable pub report_stream_failed : Text → Text → TurnError → List (Effect V B)
  report_stream_failed channel chat_id e =
      emitted (record {
        typ = codes "stream.failed";
        attrs =
            (codes "channel", channel) ∷ (codes "chat_id", chat_id) ∷ (codes "error", e.text) ∷ [];
      })
      ∷ pulsed
      ∷ []

  -- `publishTurnCompleted`, where the session mode asks for it.
  unfoldable pub complete_turn : SessionMode → InboundMessage V B → Text → Text → List (Effect V B)
  complete_turn isolated_mode msg session_key assistant_msg = []
  complete_turn current_mode msg session_key assistant_msg =
      turn_completed (record {
        user_msg = msg.content;
        assistant_msg = assistant_msg;
        session_id = session_key;
        channel = msg.channel;
        chat_id = msg.chat_id;
      })
      ∷ []

  -- `handleBuiltin`: none where the message is no builtin command.
  abbrev pub after_builtin :
      InboundMessage V B
      → Handler × Option (Option RouterError)
      → Option (Handler × List (Effect V B))
  after_builtin msg (h, none) = none
  after_builtin msg (h, some none) = some (h, reply_with msg (codes "✅ Started a fresh session."))
  after_builtin msg (h, some (some e)) =
      some (h, send_error msg.channel msg.chat_id user_err_command (builtin_failed e))

-- What the collector of a stream writes.
unfoldable pub collect_stream_output : List (Option Text) → Text
collect_stream_output [] = []
collect_stream_output (none ∷ evs) = collect_stream_output evs
collect_stream_output (some t ∷ evs) = t ++ collect_stream_output evs

-- `WrapDeliveryFailed`, at an error.
unfoldable pub wrap_delivery_failed : TurnError → TurnError
wrap_delivery_failed e = record e { text = codes "channel: delivery failed: " ++ e.text }

module _ {V B E : Type 0} (w : World V B E) (msg : InboundMessage V B) where
  -- What `handle` does with the error of a stream.
  unfoldable pub stream_error : TurnError → List (Effect V B)
  unfolding send_error
  stream_error e =
      if e.is_cancelled
      then []
      else send_error w msg.channel msg.chat_id user_err_message (turn_failed e)

  -- `runStream` behind the start of the stream.
  unfoldable pub after_stream :
      Text → TurnPlan → Result TurnError (List (Option Text)) → List (Effect V B)
  unfolding stream_error report_stream_failed complete_turn collect_stream_output
  after_stream session_key plan (err e) = stream_ended (some e) ∷ stream_error e
  after_stream session_key plan (ok evs) = elim (w.send_stream msg.chat_id msg.transport_meta evs) [
    | none ↦
        stream_ended none
        ∷ complete_turn w plan.session_mode msg session_key (collect_stream_output evs)
    | some e ↦
        let failed = wrap_delivery_failed e in
        report_stream_failed w msg.channel msg.chat_id failed
        ++ stream_ended (some failed) ∷ stream_error failed
  ]

  -- `runSync` behind the turn and its action: what `handle` does with its error, or the reply.
  unfoldable pub after_post :
      Text → TurnPlan → Handler × Result PostError Text → Handler × List (Effect V B)
  unfolding send_error reply_with complete_turn
  after_post session_key plan (h, err e) =
      (h, send_error w msg.channel msg.chat_id user_err_command (post_action_failed e))
  after_post session_key plan (h, ok result) = (
    h,
    (if is_empty result then [] else reply_with w msg result)
        ++ complete_turn w plan.session_mode msg session_key result,
  )

  -- The hook that runs before a compaction.
  unfoldable pub flush_of : Text → List (Reply V) → Handler → List (Effect V B)
  unfolding extract_post_action flushed_session stable_route_key
  flush_of output trail h = elim (extract_post_action trail) [
    | none ↦ []
    | some a ↦ elim (flushed_session (stable_route_key msg) output h) [
      | none ↦ []
      | some id ↦ flushed id ∷ []
    ]
  ]

  -- `runSync` behind the call of the runtime.
  unfoldable pub after_run :
      Text
      → TurnPlan
      → List (Reply V)
      → Handler
      → Result TurnError (Option Text)
      → Handler × List (Effect V B)
  unfolding send_error after_post handle_post_response flush_of stable_route_key
  after_run session_key plan trail h (err e) =
      (h, send_error w msg.channel msg.chat_id user_err_message (turn_failed e))
  after_run session_key plan trail h (ok resp) = add_effects (flush_of (output_of resp) trail h) (
      after_post session_key plan (
        result_or (output_of resp)
          (handle_post_response w.surroundings (stable_route_key msg) (output_of resp) trail h)))

-- What a builtin command has done, or the turn where there is none.
abbrev pub or_turn : {A : Type 0} → Option A → A → A
or_turn none a = a
or_turn (some b) a = b

module _ {V B : Type 0} (msg : InboundMessage V B) where
  -- `PreProcessInbound`, for a chat whose id is a number.
  unfoldable pub preprocess : Option Channel → List (Effect V B)
  unfolding is_int64
  preprocess ch = elim ch [
    | none ↦ []
    | some c ↦
        if c.is_inbound_preprocessor && is_int64 msg.chat_id
        then preprocessed msg.hints ∷ []
        else []
  ]

module _ {V B E : Type 0} (u : Unicode) (equal_fold : Text → Text → Bool) (any : Text → V)
    (any_int : ℕ → V) (text_block : Text → B) (w : World V B E) (msg : InboundMessage V B) where
  -- `runStream` and `runSync` with what `handle` does with their errors.
  unfoldable pub run_model : Text → TurnPlan → Outcome V → Handler → Handler × List (Effect V B)
  unfolding request_of turn_context after_stream after_run
  run_model session_key plan out h =
      let ctx = turn_context any any_int w.parent msg session_key in
      let req =
        request_of text_block msg.content session_key msg.content_blocks out.request_metadata in
      if plan.use_stream
      then (
        h,
        stream_began ∷ streamed req ∷ after_stream w msg session_key plan (w.run_stream ctx req),
      )
      else add_effects (ran_model req (output_result (w.run ctx req)) ∷ [])
          (after_run w msg session_key plan out.trail h (w.run ctx req))

  -- `handle` behind `runSlash`.
  unfoldable pub after_slash :
      Text → TurnPlan → Handler → Result (PreTurnError E) (Outcome V) → Handler × List (Effect V B)
  unfolding send_error reply_with run_model
  after_slash session_key plan h (err e) =
      (h, send_error w msg.channel msg.chat_id user_err_command (command_failed e))
  after_slash session_key plan h (ok out) =
      if out.continue_to_model
      then run_model session_key plan out h
      else (h, reply_with w msg out.direct_reply)

  -- `handle` behind `handleBuiltin`, with `runSlash`.
  unfoldable pub handle_turn :
      Option (Registry (Dispatch.Handler V E)) → Handler → Handler × List (Effect V B)
  unfolding classify_turn resolve_sdk_session_id turn_context pre_turn preprocess after_slash
      stable_route_key
  handle_turn reg h =
      let ch = w.channel_named msg.channel in
      let plan = classify_turn msg ch in
      let session_key =
        resolve_sdk_session_id w.surroundings.env (some h.router) msg.channel msg.chat_id
          (stable_route_key msg) plan.session_mode in
      add_effects
        (emitted (record {
          typ = codes "pipeline.turn_start";
          attrs = (codes "channel", msg.channel) ∷ (codes "chat_id", msg.chat_id) ∷ [];
        })
          ∷ preprocess msg ch)
        (after_slash session_key plan h (
          pre_turn u equal_fold any (turn_context any any_int w.parent msg session_key) reg
            (record { text = msg.content; expected_slash_name = plan.slash_name })))

  -- `handle`.
  unfoldable pub handle :
      Option (Registry (Dispatch.Handler V E)) → Handler → Handler × List (Effect V B)
  unfolding handle_builtin handle_turn
  handle reg h =
      or_turn
        (after_builtin w msg (handle_builtin w.surroundings.env w.surroundings.rotate_saved msg h))
        (handle_turn reg h)

-- `RunTurn`, for the turns of triggers.
unfoldable pub run_turn :
    {V B E : Type 0} → (Text → B) → World V B E → Text → Text → Result TurnError Text
unfolding request_of
run_turn text_block w prompt session_id =
    elim (w.run w.parent (request_of text_block prompt session_id [] [])) [
      | err e ↦ err e
      | ok none ↦ ok []
      | ok (some output) ↦ ok output
    ]
