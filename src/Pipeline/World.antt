-- ===== src/Pipeline/World.antt =====
-- internal/kernel/pipeline/pipeline.go: what a turn reads from its surroundings, and what it does.
-- The agent runtime, the transports and the queue of the bus are parameters of a turn.
use maven.Base.{Bool, Option, List}
use maven.Base.Result.{Result}
use maven.Base.Text.{Text}
use maven.Session.{RouterError}
use maven.Slash.Dispatch.{PreTurnError}
use maven.Postaction.{PostError, Surroundings}
use maven.Bus.Messages.{RoutingHints, OutboundMessage, PublishError}
use maven.Bus.Delivery.{Event}
use maven.Turnctx.{Metadata, Context}

-- What `handle` asks of a channel by its type assertions.
pub record Channel : Type 0 where
  pub is_stream_channel : Bool
  pub is_inbound_preprocessor : Bool

-- An error of the runtime or of a transport: its text, and whether it is `context.Canceled` or
-- `context.DeadlineExceeded`, which the wrapping of `WrapDeliveryFailed` keeps.
pub record TurnError : Type 0 where
  pub text : Text
  pub is_cancelled : Bool

-- What `sendError` reports. `E` is what handlers of commands give.
pub data Cause (E : Type 0) : Type 0 where
  builtin_failed : RouterError → Cause E
  command_failed : PreTurnError E → Cause E
  post_action_failed : PostError → Cause E
  turn_failed : TurnError → Cause E

-- `events.TurnCompleted`, without its time.
pub record TurnCompleted : Type 0 where
  pub user_msg : Text
  pub assistant_msg : Text
  pub session_id : Text
  pub channel : Text
  pub chat_id : Text

module _ (V B : Type 0) where
  -- `api.Request`; no metadata is a nil map.
  pub record Request : Type 0 where
    pub prompt : Text
    pub content_blocks : List B
    pub session_id : Text
    pub metadata : Option (Metadata V)

  -- What a turn does, in its order. A published message comes with the error of its publish, a
  -- turn of the runtime with its output, and a stream with its end.
  pub data Effect : Type 0 where
    published : OutboundMessage V B → Option PublishError → Effect
    emitted : Event → Effect
    turn_completed : TurnCompleted → Effect
    pulsed : Effect
    preprocessed : RoutingHints → Effect
    stream_began : Effect
    streamed : Request → Effect
    stream_ended : Option TurnError → Effect
    ran_model : Request → Result TurnError Text → Effect
    flushed : Text → Effect

  -- What one turn reads. `run` and `run_stream` are the runtime's, the latter with the text of each
  -- event of its stream that is a delta; `enqueue` is the queue of the bus behind the check of a
  -- message; a `send_stream` without an error has read the whole stream. `describe` and
  -- `describe_publish` are the texts of errors.
  pub record World (E : Type 0) : Type 0 where
    pub surroundings : Surroundings
    pub parent : Context V
    pub channel_named : Text → Option Channel
    pub enqueue : OutboundMessage V B → Option PublishError
    pub run : Context V → Request → Result TurnError (Option Text)
    pub run_stream : Context V → Request → Result TurnError (List (Option Text))
    pub send_stream : Text → Option (Metadata V) → List (Option Text) → Option TurnError
    pub describe : Cause E → Text
    pub describe_publish : PublishError → Text
