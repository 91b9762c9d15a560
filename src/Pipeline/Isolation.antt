-- ===== src/Pipeline/Isolation.antt =====
-- internal/kernel/pipeline/pipeline.go: a message of one chat leaves the sessions of the others.
use maven.Base.{
  ℕ, Bool, Option, none, some, List, [], ◌≢◌, refl, inl, inr, Bool-cases, Option-cases,
}
use maven.Base.Result.{Result, ok, err}
use maven.Base.Text.{Text, codes, trim_space, text_eq, is_space}
use maven.Base.Text.Trimming.{trim_space-filled}
use maven.Base.Unicode.{Unicode}
use maven.Session.{Router, RouterError, rotate, resolve_sdk_session_id}
use maven.Session.Routing.{rotate-Rotated}
use maven.Slash.Registry.{Registry}
use maven.Slash.Dispatch.{Reply, Outcome, PreTurnError, compact_rotate, pre_turn}
use maven.Slash.Dispatch as Dispatch
use maven.Postaction.{
  Handler, Surroundings, PostError, set_router, builtin_result, extract_post_action,
  handle_post_response, handle_builtin,
}
use maven.Postaction.Compaction.{OthersStay, compact-OthersStay}
use maven.Bus.Messages.{InboundMessage, stable_route_key}
use maven.Pipeline.Turn.{TurnPlan, classify_turn, request_of, turn_context}
use maven.Pipeline.World.{TurnError, World}
use maven.Pipeline.Handle.{
  or_turn, after_post, result_or, output_of, after_run, run_model, after_slash, handle_turn, handle,
  after_builtin,
}

module _ {V B : Type 0} (msg : InboundMessage V B) where
  key_filled : trim_space (stable_route_key msg) ≢ []
  unfolding stable_route_key is_space
  key_filled = trim_space-filled msg.channel b':' msg.chat_id refl

  -- No chat but the message's own has another session than before.
  abbrev pub Stays : Handler → Handler → Type 0
  Stays = OthersStay (stable_route_key msg)

  result-Stays :
      {A : Type 0} (h : Handler) (p : Router × Result RouterError A)
      → Stays h (set_router p.0 h)
      → Stays h (builtin_result p h).0
  result-Stays h (r, ok a) stay = stay
  result-Stays h (r, err e) stay = stay

  handle_builtin-Stays :
      (w : Surroundings) (h : Handler) → Stays h (handle_builtin w.env w.rotate_saved msg h).0
  unfolding handle_builtin
  handle_builtin-Stays w h =
      elim (Bool-cases (text_eq (trim_space msg.hints.builtin_command) (codes "new"))) [
        | inl e ↦
            rw (handle_builtin, e)
              (result-Stays h (rotate w.env w.rotate_saved h.router (stable_route_key msg))
                (rotate-Rotated w.env w.rotate_saved h.router (stable_route_key msg)
                  key_filled).others)
        | inr e ↦ rw (handle_builtin, e) (λ other fallback d. refl)
      ]

  handle_post_response-Stays :
      (w : Surroundings) (output : Text) (trail : List (Reply V)) (h : Handler)
      → Stays h (handle_post_response w (stable_route_key msg) output trail h).0
  unfolding handle_post_response
  handle_post_response-Stays w output trail h = elim (Option-cases (extract_post_action trail)) [
    | inl e ↦ rw (handle_post_response, e) (λ other fallback d. refl)
    | inr (compact_rotate mode, e) ↦
        rw (handle_post_response, e)
          (compact-OthersStay w (stable_route_key msg) mode h key_filled output)
  ]

module _ {V B E : Type 0} (w : World V B E) (msg : InboundMessage V B) where
  module _ (session_key : Text) (plan : TurnPlan) where
    after_post-Stays :
        (h : Handler) (p : Handler × Result PostError Text)
        → Stays msg h p.0
        → Stays msg h (after_post w msg session_key plan p).0
    unfolding after_post
    after_post-Stays h (g, err e) stay = stay
    after_post-Stays h (g, ok t) stay = stay

    result_or-Stays :
        (h : Handler) (output : Text) (p : Handler × Option (Result PostError Text))
        → Stays msg h p.0
        → Stays msg h (result_or output p).0
    result_or-Stays h output (g, none) stay = stay
    result_or-Stays h output (g, some r) stay = stay

    after_run-Stays :
        (trail : List (Reply V)) (h : Handler) (r : Result TurnError (Option Text))
        → Stays msg h (after_run w msg session_key plan trail h r).0
    unfolding after_run
    after_run-Stays trail h (err e) = λ other fallback d. refl
    after_run-Stays trail h (ok resp) =
        let output = output_of resp in
        let post = handle_post_response w.surroundings (stable_route_key msg) output trail h in
        after_post-Stays h (result_or output post) (
          result_or-Stays h output post
            (handle_post_response-Stays msg w.surroundings output trail h))

module _ {V B E : Type 0} (u : Unicode) (equal_fold : Text → Text → Bool) (any : Text → V)
    (any_int : ℕ → V) (text_block : Text → B) (w : World V B E) (msg : InboundMessage V B) where
  model-Stays :
      (session_key : Text) (plan : TurnPlan) (out : Outcome V) (h : Handler)
      → Stays msg h (run_model u equal_fold any any_int text_block w msg session_key plan out h).0
  unfolding run_model
  model-Stays session_key plan out h = elim (Bool-cases plan.use_stream) [
    | inl s ↦ rw (run_model, s) (λ other fallback d. refl)
    | inr s ↦
        rw (run_model, s)
          (after_run-Stays w msg session_key plan out.trail h (
            w.run (turn_context any any_int w.parent msg session_key) (
              request_of text_block msg.content session_key msg.content_blocks
                out.request_metadata)))
  ]

  after_slash-Stays :
      (session_key : Text) (plan : TurnPlan) (h : Handler) (r : Result (PreTurnError E) (Outcome V))
      → Stays msg h (after_slash u equal_fold any any_int text_block w msg session_key plan h r).0
  unfolding after_slash
  after_slash-Stays session_key plan h (err e) = λ other fallback d. refl
  after_slash-Stays session_key plan h (ok out) = elim (Bool-cases out.continue_to_model) [
    | inr c ↦ rw (after_slash, c) (λ other fallback d. refl)
    | inl c ↦ rw (after_slash, c) (model-Stays session_key plan out h)
  ]

  handle_turn-Stays :
      (reg : Option (Registry (Dispatch.Handler V E))) (h : Handler)
      → Stays msg h (handle_turn u equal_fold any any_int text_block w msg reg h).0
  unfolding handle_turn
  handle_turn-Stays reg h =
      let plan = classify_turn msg (w.channel_named msg.channel) in
      let key =
        resolve_sdk_session_id w.surroundings.env (some h.router) msg.channel msg.chat_id
          (stable_route_key msg) plan.session_mode in
      after_slash-Stays key plan h (
        pre_turn u equal_fold any (turn_context any any_int w.parent msg key) reg
          (record { text = msg.content; expected_slash_name = plan.slash_name }))

  -- Whatever the runtime, the commands and the writes of files do with it, a message moves no chat
  -- but its own to another session: not with /new, not with a compaction, and not when they fail.
  pub handle-OthersStay :
      (reg : Option (Registry (Dispatch.Handler V E))) (h : Handler)
      → OthersStay
          (stable_route_key msg)
          h
          (handle u equal_fold any any_int text_block w msg reg h).0
  unfolding handle
  handle-OthersStay reg h =
      builtin (handle_builtin w.surroundings.env w.surroundings.rotate_saved msg h)
        (handle_builtin-Stays msg w.surroundings h)
    where
      builtin :
          (p : Handler × Option (Option RouterError))
          → Stays msg h p.0
          → Stays msg h
              (or_turn
                (after_builtin w msg p)
                (handle_turn u equal_fold any any_int text_block w msg reg h)).0
      builtin (g, none) stay = handle_turn-Stays reg h
      builtin (g, some none) stay = stay
      builtin (g, some (some e)) stay = stay
