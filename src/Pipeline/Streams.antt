-- ===== src/Pipeline/Streams.antt =====
-- internal/kernel/pipeline/pipeline.go: `runStream`, and what its parts and those of `runSync` show
-- of a turn.
use maven.Base.{
  true, false, ◌⊎◌, Option, none, some, List, [], ◌∷◌, ◌++◌, ◌≡◌, refl, map, arith, inl, inr,
  Bool-cases, Option-cases, length,
}
use maven.Base.Result.{Result, ok, err}
use maven.Base.Text.{Text}
use maven.Session.{SessionMode, current_mode, isolated_mode}
use maven.Bus.Messages.{InboundMessage}
use maven.Pipeline.Turn.{TurnPlan}
use maven.Pipeline.World.{
  Cause, TurnError, turn_failed, TurnCompleted, Request, Effect, stream_began, streamed, World,
}
use maven.Pipeline.Answers.{
  replies, completions, streamed_out, model_answered, Orderly, Orderly-made, Answered,
  send_error-Answered,
}
use maven.Pipeline.Handle.{
  send_error, publish_outbound, outbound_to, reply_with, complete_turn, stream_error, after_stream,
  user_err_message, user_err_command, collect_stream_output, wrap_delivery_failed,
  report_stream_failed,
}

module _ {V B E : Type 0} (w : World V B E) (msg : InboundMessage V B) where
  pub send_error_tells :
      (cause : Cause E)
      → (let es = send_error w msg.channel msg.chat_id user_err_command cause in
          (map (λ m. m.content) (replies es) ≡ user_err_command ∷ [])
          × (streamed_out es ≡ false)
          × (model_answered es ≡ false))
  unfolding send_error
  send_error_tells cause =
      elim (Option-cases
        (publish_outbound w (outbound_to msg.channel msg.chat_id user_err_command none))) [
          | inl e ↦ rw e (refl, refl, refl)
          | inr (r, e) ↦ rw e (refl, refl, refl)
        ]

  module _ (session_key : Text) where
    pub completes_current :
        (mode : SessionMode) (text : Text)
        → mode ≡ current_mode
        → length (completions (complete_turn w mode msg session_key text)) ≡ 1
    unfolding complete_turn
    completes_current current_mode text e = refl
    completes_current isolated_mode text e = absurd (ground arith)

    pub complete_turn_synchronous :
        (mode : SessionMode) (text : Text)
        → (streamed_out (complete_turn w mode msg session_key text) ≡ false)
          × (model_answered (complete_turn w mode msg session_key text) ≡ false)
    unfolding complete_turn
    complete_turn_synchronous current_mode text = (refl, refl)
    complete_turn_synchronous isolated_mode text = (refl, refl)

module _ {V B E : Type 0} (w : World V B E) (msg : InboundMessage V B) (session_key : Text) where
  completed_turn : Text → TurnCompleted
  completed_turn text = record {
    user_msg = msg.content;
    assistant_msg = text;
    session_id = session_key;
    channel = msg.channel;
    chat_id = msg.chat_id;
  }

  abbrev pub Shows : SessionMode → List (Effect V B) → Type 0
  Shows mode es = Orderly msg mode session_key (replies es) (completions es)

  pub complete_turn-Shows :
      (mode : SessionMode) (text : Text) → Shows mode (complete_turn w mode msg session_key text)
  unfolding complete_turn
  complete_turn-Shows current_mode text =
      Orderly-made msg current_mode session_key none
        (some (record {
          user_msg = msg.content;
          assistant_msg = text;
          session_id = session_key;
          channel = msg.channel;
          chat_id = msg.chat_id;
        }))
        tt ((refl, refl, refl, refl), tt) (λ e. absurd (ground arith))
  complete_turn-Shows isolated_mode text =
      Orderly-made msg isolated_mode session_key none none tt tt (λ _. refl)

  pub reply-Shows :
      (mode : SessionMode) (text : Text)
      → Shows mode (reply_with w msg text ++ complete_turn w mode msg session_key text)
  unfolding complete_turn reply_with
  reply-Shows current_mode text =
      Orderly-made msg current_mode session_key
        (some (outbound_to msg.channel msg.chat_id text msg.transport_meta))
        (some (record {
          user_msg = msg.content;
          assistant_msg = text;
          session_id = session_key;
          channel = msg.channel;
          chat_id = msg.chat_id;
        }))
        ((refl, refl), tt) ((refl, refl, refl, refl), tt) (λ e. absurd (ground arith))
  reply-Shows isolated_mode text =
      Orderly-made msg isolated_mode session_key
        (some (outbound_to msg.channel msg.chat_id text msg.transport_meta)) none ((refl, refl), tt)
        tt (λ _. refl)

  pub one_reply :
      (mode : SessionMode) (text : Text)
      → length (replies (reply_with w msg text ++ complete_turn w mode msg session_key text)) ≡ 1
  unfolding complete_turn reply_with
  one_reply current_mode text = refl
  one_reply isolated_mode text = refl

  stream_error-Shows : (mode : SessionMode) (e : TurnError) → Shows mode (stream_error w msg e)
  unfolding stream_error
  stream_error-Shows mode e = elim (Bool-cases e.is_cancelled) [
    | inl c ↦ rw c (Orderly-made msg mode session_key none none tt tt (λ _. refl))
    | inr c ↦
        rw c (send_error-Answered msg mode session_key w user_err_message (turn_failed e)).orderly
  ]

  module _ (plan : TurnPlan) where
    after_stream-Shows :
        (r : Result TurnError (List (Option Text)))
        → Shows plan.session_mode (after_stream w msg session_key plan r)
    unfolding after_stream report_stream_failed
    after_stream-Shows (err e) = stream_error-Shows plan.session_mode e
    after_stream-Shows (ok evs) =
        elim (Option-cases (w.send_stream msg.chat_id msg.transport_meta evs)) [
          | inl e ↦
              rw (after_stream, e)
                (complete_turn-Shows plan.session_mode (collect_stream_output evs))
          | inr (f, e) ↦
              rw (after_stream, e) (stream_error-Shows plan.session_mode (wrap_delivery_failed f))
        ]

    stream_error-Untold :
        (e : TurnError)
        → (completions (stream_error w msg e) ≡ [])
          × (streamed_out (stream_error w msg e) ≡ false)
          × (model_answered (stream_error w msg e) ≡ false)
    unfolding stream_error send_error
    stream_error-Untold e = elim (Bool-cases e.is_cancelled) [
      | inl c ↦ rw c (refl, refl, refl)
      | inr c ↦
          elim (Option-cases
            (publish_outbound w (outbound_to msg.channel msg.chat_id user_err_message none))) [
              | inl p ↦ rw (c, p) (refl, refl, refl)
              | inr (r, p) ↦ rw (c, p) (refl, refl, refl)
            ]
    ]

    -- How a stream ends: to its end, with the turn reported in a current session, or not.
    abbrev GoesOut : List (Effect V B) → Type 0
    GoesOut es =
        ((streamed_out es ≡ true)
          × (plan.session_mode ≡ current_mode → length (completions es) ≡ 1))
        ⊎ ((streamed_out es ≡ false) × (completions es ≡ []))

    gone_out :
        (es : List (Effect V B))
        → GoesOut es
        → plan.session_mode ≡ current_mode
        → streamed_out es ≡ true
        → length (completions es) ≡ 1
    gone_out es (inl (o, h)) current out = h current
    gone_out es (inr (o, h)) current out = absurd (ground arith)

    kept_back :
        (es : List (Effect V B)) → GoesOut es → streamed_out es ≡ false → completions es ≡ []
    kept_back es (inl (o, h)) out = absurd (ground arith)
    kept_back es (inr (o, h)) out = h

    abbrev StreamEnds : List (Effect V B) → Type 0
    StreamEnds es = (model_answered es ≡ false) × GoesOut es

    after_stream-Ends :
        (r : Result TurnError (List (Option Text)))
        → StreamEnds (after_stream w msg session_key plan r)
    unfolding after_stream report_stream_failed
    after_stream-Ends (err e) = let u = stream_error-Untold e in (u.2, inr (u.1, u.0))
    after_stream-Ends (ok evs) =
        elim (Option-cases (w.send_stream msg.chat_id msg.transport_meta evs)) [
          | inl e ↦
              rw (after_stream, e)
                (
                  (complete_turn_synchronous w msg session_key plan.session_mode
                      (collect_stream_output evs)).1,
                  inl (
                    refl,
                    completes_current w msg session_key plan.session_mode
                        (collect_stream_output evs),
                  ),
                )
          | inr (f, e) ↦
              rw (after_stream, e)
                (let u = stream_error-Untold (wrap_delivery_failed f) in (u.2, inr (u.1, u.0)))
        ]

    pub streamed-Answered :
        (req : Request V B) (r : Result TurnError (List (Option Text)))
        → Answered msg plan.session_mode session_key
            (stream_began ∷ streamed req ∷ after_stream w msg session_key plan r)
    streamed-Answered req r =
        let ends = after_stream-Ends r in
        record {
          orderly = after_stream-Shows r;
          answered = λ n. absurd (ground arith);
          stream_reported =
              λ current out. gone_out (after_stream w msg session_key plan r) ends.1 current out;
          answer_reported = λ _ a. absurd (ground (arith, ends.0));
          unreported = λ out _. kept_back (after_stream w msg session_key plan r) ends.1 out;
        }
