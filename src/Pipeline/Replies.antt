-- ===== src/Pipeline/Replies.antt =====
-- internal/kernel/pipeline/pipeline.go: every message is answered once, in its own chat.
use maven.Base.{ℕ, Bool, some, List}
use maven.Base.Result.{Result}
use maven.Base.Text.{Text}
use maven.Base.Unicode.{Unicode}
use maven.Session.{resolve_sdk_session_id}
use maven.Slash.Registry.{Registry}
use maven.Slash.Dispatch.{Reply}
use maven.Slash.Dispatch as Dispatch
use maven.Postaction.{Handler}
use maven.Bus.Messages.{InboundMessage, stable_route_key}
use maven.Pipeline.Turn.{TurnPlan}
use maven.Pipeline.World.{Effect, World}
use maven.Pipeline.Answers.{Answered}

module _ {V B E : Type 0} (u : Unicode) (equal_fold : Text → Text → Bool) (any : Text → V)
    (any_int : ℕ → V) (text_block : Text → B) (w : World V B E) (msg : InboundMessage V B) where
  module _ (session_key : Text) (plan : TurnPlan) where
    abbrev Meets : List (Effect V B) → Type 0
    Meets = Answered msg plan.session_mode session_key

  abbrev Meeting : Handler → List (Effect V B) → Type 0
  Meeting h = Answered msg msg.hints.session_mode (
      resolve_sdk_session_id w.surroundings.env (some h.router) msg.channel msg.chat_id
        (stable_route_key msg) msg.hints.session_mode)
