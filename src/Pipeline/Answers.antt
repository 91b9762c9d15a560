-- ===== src/Pipeline/Answers.antt =====
-- internal/kernel/pipeline/pipeline.go: the replies to a message.
use maven.Base.{
  Bool, true, false, ◌||◌, ◌⊎◌, Option, none, some, List, [], ◌∷◌, ◌≤◌, ◌≡◌, refl, arith, inl, inr,
  Option-cases, is_empty, All, length, map,
}
use maven.Base.Result.{Result, ok, err}
use maven.Base.Text.{Text}
use maven.Session.{SessionMode, current_mode, isolated_mode}
use maven.Bus.Messages.{InboundMessage, OutboundMessage}
use maven.Pipeline.World.{
  TurnError, Cause, TurnCompleted, Effect, published, emitted, turn_completed, pulsed, preprocessed,
  stream_began, streamed, stream_ended, ran_model, flushed, World,
}
use maven.Pipeline.Handle.{outbound_to, send_error, reply_with, publish_outbound, user_err_command}

abbrev pub no_output : Result TurnError Text → Bool
no_output (err e) = false
no_output (ok t) = is_empty t

module _ {V B : Type 0} where
  -- The messages that a turn hands to the bus, which may refuse them, and the turns that it reports as completed.
  abbrev pub replies : List (Effect V B) → List (OutboundMessage V B)
  replies [] = []
  replies (published m r ∷ es) = m ∷ replies es
  replies (emitted e ∷ es) = replies es
  replies (turn_completed t ∷ es) = replies es
  replies (pulsed ∷ es) = replies es
  replies (preprocessed hints ∷ es) = replies es
  replies (stream_began ∷ es) = replies es
  replies (streamed req ∷ es) = replies es
  replies (stream_ended e ∷ es) = replies es
  replies (ran_model req r ∷ es) = replies es
  replies (flushed id ∷ es) = replies es

  abbrev pub completions : List (Effect V B) → List TurnCompleted
  completions [] = []
  completions (turn_completed t ∷ es) = t ∷ completions es
  completions (published m r ∷ es) = completions es
  completions (emitted e ∷ es) = completions es
  completions (pulsed ∷ es) = completions es
  completions (preprocessed hints ∷ es) = completions es
  completions (stream_began ∷ es) = completions es
  completions (streamed req ∷ es) = completions es
  completions (stream_ended e ∷ es) = completions es
  completions (ran_model req r ∷ es) = completions es
  completions (flushed id ∷ es) = completions es

  -- Whether the model's answer goes to the channel as a stream, or is empty.
  abbrev pub needs_no_reply : List (Effect V B) → Bool
  needs_no_reply [] = false
  needs_no_reply (streamed req ∷ es) = true
  needs_no_reply (ran_model req r ∷ es) = no_output r || needs_no_reply es
  needs_no_reply (turn_completed t ∷ es) = needs_no_reply es
  needs_no_reply (published m r ∷ es) = needs_no_reply es
  needs_no_reply (emitted e ∷ es) = needs_no_reply es
  needs_no_reply (pulsed ∷ es) = needs_no_reply es
  needs_no_reply (preprocessed hints ∷ es) = needs_no_reply es
  needs_no_reply (stream_began ∷ es) = needs_no_reply es
  needs_no_reply (stream_ended e ∷ es) = needs_no_reply es
  needs_no_reply (flushed id ∷ es) = needs_no_reply es

  -- Whether a stream has gone out to its end, and whether the model has given an answer that is not
  -- streamed.
  abbrev pub streamed_out : List (Effect V B) → Bool
  streamed_out [] = false
  streamed_out (stream_ended none ∷ es) = true
  streamed_out (stream_ended (some e) ∷ es) = streamed_out es
  streamed_out (streamed req ∷ es) = streamed_out es
  streamed_out (ran_model req r ∷ es) = streamed_out es
  streamed_out (turn_completed t ∷ es) = streamed_out es
  streamed_out (published m r ∷ es) = streamed_out es
  streamed_out (emitted e ∷ es) = streamed_out es
  streamed_out (pulsed ∷ es) = streamed_out es
  streamed_out (preprocessed hints ∷ es) = streamed_out es
  streamed_out (stream_began ∷ es) = streamed_out es
  streamed_out (flushed id ∷ es) = streamed_out es

  abbrev pub model_answered : List (Effect V B) → Bool
  model_answered [] = false
  model_answered (ran_model req (ok t) ∷ es) = true
  model_answered (ran_model req (err e) ∷ es) = model_answered es
  model_answered (stream_ended e ∷ es) = model_answered es
  model_answered (streamed req ∷ es) = model_answered es
  model_answered (turn_completed t ∷ es) = model_answered es
  model_answered (published m r ∷ es) = model_answered es
  model_answered (emitted e ∷ es) = model_answered es
  model_answered (pulsed ∷ es) = model_answered es
  model_answered (preprocessed hints ∷ es) = model_answered es
  model_answered (stream_began ∷ es) = model_answered es
  model_answered (flushed id ∷ es) = model_answered es

  -- One turn is reported, or the chat is told of a failed command instead.
  abbrev pub Reported : List (OutboundMessage V B) → List TurnCompleted → Type 0
  Reported rs ts = (length ts ≡ 1) ⊎ (map (λ m. m.content) rs ≡ user_err_command ∷ [])

  -- A message to the chat from which `msg` came, and a completed turn of its session.
  abbrev pub GoesBack : InboundMessage V B → OutboundMessage V B → Type 0
  GoesBack msg m = (m.channel ≡ msg.channel) × (m.chat_id ≡ msg.chat_id)

  abbrev pub Completes : InboundMessage V B → Text → TurnCompleted → Type 0
  Completes msg session_key t =
      (t.channel ≡ msg.channel)
      × (t.chat_id ≡ msg.chat_id)
      × (t.user_msg ≡ msg.content)
      × (t.session_id ≡ session_key)

abbrev pub listed : {A : Type 0} → Option A → List A
listed none = []
listed (some a) = a ∷ []

module _ {V B : Type 0} (msg : InboundMessage V B) (mode : SessionMode) (session_key : Text) where
  -- At most one message handed to the bus and one completed turn, both of the message's chat, and no completed turn of
  -- an isolated session.
  pub record Orderly (rs : List (OutboundMessage V B)) (ts : List TurnCompleted) : Type 0 where
    pub replied_once : length rs ≤ 1
    pub addressed : All (GoesBack msg) rs
    pub completed_once : length ts ≤ 1
    pub completed : All (Completes msg session_key) ts
    pub isolated_hidden : mode ≡ isolated_mode → ts ≡ []

  pub Orderly-made :
      (r : Option (OutboundMessage V B)) (t : Option TurnCompleted)
      → All (GoesBack msg) (listed r)
      → All (Completes msg session_key) (listed t)
      → (mode ≡ isolated_mode → listed t ≡ [])
      → Orderly (listed r) (listed t)
  Orderly-made r t back done hidden = record {
    replied_once = at_most_one r;
    addressed = back;
    completed_once = at_most_one t;
    completed = done;
    isolated_hidden = hidden;
  }
    where
      at_most_one : {A : Type 0} (o : Option A) → length (listed o) ≤ 1
      at_most_one none = omega arith
      at_most_one (some a) = omega arith

  -- What a turn does, as far as its message sees it.
  pub record Answered (es : List (Effect V B)) : Type 0 where
    pub orderly : Orderly (replies es) (completions es)
    pub answered : needs_no_reply es ≡ false → length (replies es) ≡ 1
    pub stream_reported : mode ≡ current_mode → streamed_out es ≡ true → length (completions es) ≡ 1
    pub answer_reported :
        mode ≡ current_mode → model_answered es ≡ true → Reported (replies es) (completions es)
    pub unreported : streamed_out es ≡ false → model_answered es ≡ false → completions es ≡ []

  module _ {E : Type 0} (w : World V B E) where
    pub send_error-Answered :
        (user_msg : Text) (cause : Cause E)
        → Answered (send_error w msg.channel msg.chat_id user_msg cause)
    unfolding send_error
    send_error-Answered user_msg cause =
        let m = outbound_to msg.channel msg.chat_id user_msg none in
        elim (Option-cases (publish_outbound w m)) [
          | inl e ↦ rw e record {
            orderly = Orderly-made (some m) none ((refl, refl), tt) tt (λ _. refl);
            answered = λ _. refl;
            stream_reported = λ _ q. absurd (ground arith);
            answer_reported = λ _ q. absurd (ground arith);
            unreported = λ _ _. refl;
          }
          | inr (r, e) ↦ rw e record {
            orderly = Orderly-made (some m) none ((refl, refl), tt) tt (λ _. refl);
            answered = λ _. refl;
            stream_reported = λ _ q. absurd (ground arith);
            answer_reported = λ _ q. absurd (ground arith);
            unreported = λ _ _. refl;
          }
        ]

    pub send_error_one :
        (user_msg : Text) (cause : Cause E)
        → length (replies (send_error w msg.channel msg.chat_id user_msg cause)) ≡ 1
    unfolding send_error
    send_error_one user_msg cause =
        elim (Option-cases
          (publish_outbound w (outbound_to msg.channel msg.chat_id user_msg none))) [
            | inl e ↦ rw e refl
            | inr (r, e) ↦ rw e refl
          ]

    pub reply_with-Answered : (content : Text) → Answered (reply_with w msg content)
    unfolding reply_with
    reply_with-Answered content = record {
      orderly =
          Orderly-made (some (outbound_to msg.channel msg.chat_id content msg.transport_meta)) none
            ((refl, refl), tt) tt (λ _. refl);
      answered = λ _. refl;
      stream_reported = λ _ q. absurd (ground arith);
      answer_reported = λ _ q. absurd (ground arith);
      unreported = λ _ _. refl;
    }
