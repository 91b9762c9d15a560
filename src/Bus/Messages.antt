-- ===== src/Bus/Messages.antt =====
-- internal/kernel/bus/messages.go and routing.go.
use maven.Base.{ℕ, Bool, List, Option, ◌++◌, if◌then◌else◌, is_empty}
use maven.Base.Result.{Result, ok, err}
use maven.Base.Text.{Text, codes, trim_space}
use maven.Session.{SessionMode}
use maven.Turnctx.{Metadata}

-- `RoutingHints`.
pub record RoutingHints : Type 0 where
  pub session_mode : SessionMode
  pub force_sync : Bool
  pub builtin_command : Text
  pub slash_command : Text
  pub slash_type : Text
  pub slash_args : Text
  pub message_id : ℕ

module _ (V B : Type 0) where
  -- `InboundMessage`; the transport metadata is none for a nil map.
  pub record InboundMessage : Type 0 where
    pub channel : Text
    pub sender_id : Text
    pub chat_id : Text
    pub content : Text
    pub timestamp : ℕ
    pub media : List Text
    pub hints : RoutingHints
    pub transport_meta : Option (Metadata V)
    pub content_blocks : List B

  -- `OutboundMessage`.
  pub record OutboundMessage : Type 0 where
    pub channel : Text
    pub chat_id : Text
    pub content : Text
    pub reply_to : Text
    pub media : List Text
    pub metadata : Option (Metadata V)
    pub content_blocks : List B

-- `ErrInvalidInbound`, `ErrInvalidOutbound`, `ErrBusClosed` and the error of a context.
pub data PublishError : Type 0 where
  invalid_inbound invalid_outbound bus_closed context_done : PublishError

module _ {V B : Type 0} where
  -- `normalizeInboundMessage`.
  unfoldable pub normalize_inbound : InboundMessage V B → Result PublishError (InboundMessage V B)
  normalize_inbound m =
      if is_empty (trim_space m.channel)
      then err invalid_inbound
      else ok (record m {
        channel = trim_space m.channel;
        chat_id = trim_space m.chat_id;
        sender_id = trim_space m.sender_id;
      })

  -- `normalizeOutboundMessage`.
  unfoldable pub normalize_outbound :
      OutboundMessage V B → Result PublishError (OutboundMessage V B)
  normalize_outbound m =
      if is_empty (trim_space m.channel)
      then err invalid_outbound
      else ok (record m {
        channel = trim_space m.channel;
        chat_id = trim_space m.chat_id;
        reply_to = trim_space m.reply_to;
      })

  -- `StableRouteKey`.
  unfoldable pub stable_route_key : InboundMessage V B → Text
  stable_route_key m = m.channel ++ (codes ":" ++ m.chat_id)
