-- ===== src/Pipeline/Sync.antt =====
-- internal/kernel/pipeline/pipeline.go: `runSync`, from the model's answer to the reply.
use maven.Base.{
  false, Option, none, some, List, ◌∷◌, ◌++◌, ◌≡◌, arith, inl, inr, Bool-cases, Option-cases,
  is_empty, length,
}
use maven.Base.Result.{Result, ok, err}
use maven.Base.Text.{Text}
use maven.Session.{current_mode}
use maven.Slash.Dispatch.{Reply}
use maven.Postaction.{
  Handler, PostError, extract_post_action, flushed_session, handle_post_response,
}
use maven.Postaction.Replies.{Filled, AllFilled, handle_post_response-AllFilled}
use maven.Bus.Messages.{InboundMessage, stable_route_key}
use maven.Pipeline.Turn.{TurnPlan}
use maven.Pipeline.World.{
  TurnError, turn_failed, post_action_failed, Request, Effect, ran_model, World,
}
use maven.Pipeline.Answers.{
  replies, completions, streamed_out, model_answered, Reported, Answered, send_error-Answered,
  send_error_one,
}
use maven.Pipeline.Handle.{
  send_error, after_post, result_or, output_of, flush_of, output_result, after_run,
  user_err_message, user_err_command,
}
use maven.Pipeline.Streams.{
  Shows, send_error_tells, completes_current, complete_turn_synchronous, complete_turn-Shows,
  reply-Shows, one_reply,
}

module _ {V B E : Type 0} (w : World V B E) (msg : InboundMessage V B) (session_key : Text)
    (plan : TurnPlan) where
  -- The reply of a synchronous turn.
  record Ended (r : Result PostError Text) (es : List (Effect V B)) : Type 0 where
    shows : Shows w msg session_key plan.session_mode es
    replied : Filled r → length (replies es) ≡ 1
    reported : plan.session_mode ≡ current_mode → Reported (replies es) (completions es)
    synchronous : (streamed_out es ≡ false) × (model_answered es ≡ false)

  after_post-Ended :
      (p : Handler × Result PostError Text) → Ended p.1 (after_post w msg session_key plan p).1
  unfolding after_post
  after_post-Ended (h, err e) = record {
    shows =
        (send_error-Answered msg plan.session_mode session_key w user_err_command
          (post_action_failed e)).orderly;
    replied = λ _.
        send_error_one msg plan.session_mode session_key w user_err_command (post_action_failed e);
    reported = λ _. inr (send_error_tells w msg (post_action_failed e)).0;
    synchronous = let t = send_error_tells w msg (post_action_failed e) in (t.1, t.2);
  }
  after_post-Ended (h, ok t) = elim (Bool-cases (is_empty t)) [
    | inl e ↦ rw e record {
      shows = complete_turn-Shows w msg session_key plan.session_mode t;
      replied = λ f. absurd (ground arith);
      reported = λ current. inl (completes_current w msg session_key plan.session_mode t current);
      synchronous = complete_turn_synchronous w msg session_key plan.session_mode t;
    }
    | inr e ↦ rw e record {
      shows = reply-Shows w msg session_key plan.session_mode t;
      replied = λ _. one_reply w msg session_key plan.session_mode t;
      reported = λ current. inl (completes_current w msg session_key plan.session_mode t current);
      synchronous = complete_turn_synchronous w msg session_key plan.session_mode t;
    }
  ]

  abbrev Answers : List (Effect V B) → Type 0
  Answers = Answered msg plan.session_mode session_key

  -- What the hook adds shows nothing to the message.
  flushed-Ended :
      (r : Result PostError Text) (output : Text) (trail : List (Reply V)) (h : Handler)
      (es : List (Effect V B))
      → Ended r es
      → Ended r (flush_of w msg output trail h ++ es)
  unfolding flush_of
  flushed-Ended r output trail h es d = elim (Option-cases (extract_post_action trail)) [
    | inl e ↦ rw (flush_of, e) d
    | inr (a, e) ↦ elim (Option-cases (flushed_session (stable_route_key msg) output h)) [
      | inl f ↦ rw (flush_of, e, f) d
      | inr (id, f) ↦
          rw (flush_of, e, f)
            (record {
              shows = d.shows;
              replied = d.replied;
              reported = d.reported;
              synchronous = d.synchronous;
            })
    ]
  ]

  ran_model-Answered :
      (req : Request V B) (output : Text) (q : Result PostError Text) (es : List (Effect V B))
      → Ended q es
      → (is_empty output ≡ false → Filled q)
      → Answers (ran_model req (ok output) ∷ es)
  ran_model-Answered req output q es d f = record {
    orderly = d.shows;
    answered = λ n. d.replied (f (ground arith));
    stream_reported = λ _ s. absurd (ground (arith, d.synchronous.0));
    answer_reported = λ current _. d.reported current;
    unreported = λ _ a. absurd (ground arith);
  }

  failed_model-Answered :
      (req : Request V B) (e : TurnError)
      → Answers (
          ran_model req (err e)
          ∷ send_error w msg.channel msg.chat_id user_err_message (turn_failed e))
  failed_model-Answered req e =
      let a =
        send_error-Answered msg plan.session_mode session_key w user_err_message (turn_failed e) in
      record {
        orderly = a.orderly;
        answered = λ _.
            send_error_one msg plan.session_mode session_key w user_err_message (turn_failed e);
        stream_reported = a.stream_reported;
        answer_reported = a.answer_reported;
        unreported = a.unreported;
      }

  result-Filled :
      (output : Text) (p : Handler × Option (Result PostError Text))
      → AllFilled p.1
      → is_empty output ≡ false
      → Filled (result_or output p).1
  result-Filled output (h, none) a n = n
  result-Filled output (h, some r) a n = a

  pub run-Answered :
      (req : Request V B) (trail : List (Reply V)) (h : Handler)
      (r : Result TurnError (Option Text))
      → Answers (ran_model req (output_result r) ∷ (after_run w msg session_key plan trail h r).1)
  unfolding after_run
  run-Answered req trail h (err e) = failed_model-Answered req e
  run-Answered req trail h (ok resp) =
      let key = stable_route_key msg in
      let post = handle_post_response w.surroundings key (output_of resp) trail h in
      ran_model-Answered req (output_of resp) (result_or (output_of resp) post).1 _
        (flushed-Ended _ (output_of resp) trail h _
          (after_post-Ended (result_or (output_of resp) post)))
        (result-Filled (output_of resp) post
          (handle_post_response-AllFilled w.surroundings key (output_of resp) h trail))
