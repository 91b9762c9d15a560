-- ===== src/Bus/Delivery.antt =====
-- internal/kernel/bus/bus.go and outbound_pub.go: the subscribers, one round of `DispatchOutbound`,
-- and the events of failures. A handler is a parameter, and an error is its text.
use maven.Base.{Option, none, some, List, [], ◌∷◌, if◌then◌else◌, is_empty}
use maven.Base.Assoc.{lookup, insert, erase}
use maven.Base.Text.{Text, codes, trim_space, text_eq}
use maven.Bus.Messages.{OutboundMessage}

-- `events.Event`, without its payload.
pub record Event : Type 0 where
  pub typ : Text
  pub attrs : List (Text × Text)

-- `busPublishFailureEvent`, `busClosedEvent` and `outboundDeliveryFailedEvent`.
unfoldable pub bus_publish_failure_event : Text → Text → Text → Event
bus_publish_failure_event stream routing_key error = record {
  typ = codes "bus.publish_failure";
  attrs = (codes "stream", stream) ∷ (codes "channel", routing_key) ∷ (codes "error", error) ∷ [];
}

unfoldable pub bus_closed_event : Event
bus_closed_event = record { typ = codes "bus.closed"; attrs = [] }

unfoldable pub outbound_delivery_failed_event : Text → Text → Text → Event
outbound_delivery_failed_event channel chat_id error = record {
  typ = codes "outbound.delivery_failed";
  attrs =
      if is_empty chat_id
      then (codes "channel", channel) ∷ (codes "error", error) ∷ []
      else (codes "channel", channel) ∷ (codes "error", error) ∷ (codes "chat_id", chat_id) ∷ [];
}

-- How a handler ends.
pub data Outcome : Type 0 where
  delivered panicked : Outcome
  failed : Text → Outcome

-- What a round of the loop does: the call of a handler, the report of a failure with its event and
-- the pulse, the recovery from a panic, and a dropped message.
pub data Effect (V B : Type 0) : Type 0 where
  called : OutboundMessage V B → Effect V B
  reported : Event → Effect V B
  pulsed recovered dropped : Effect V B

module _ (V B : Type 0) where
  abbrev pub Handler : Type 0
  Handler = OutboundMessage V B → Outcome

  -- `subs`.
  abbrev pub Subscribers : Type 0
  Subscribers = List (Text × Handler)

module _ {V B : Type 0} where
  -- `SetOutboundSubscriber`; none is a nil handler.
  unfoldable pub set_outbound_subscriber :
      Text → Option (Handler V B) → Subscribers V B → Subscribers V B
  unfolding insert erase text_eq
  set_outbound_subscriber channel fn subs = elim fn [
    | none ↦ erase (trim_space channel) subs
    | some f ↦ insert (trim_space channel) f subs
  ]

  -- The end of a handler, seen by the loop.
  unfoldable pub after_callback : OutboundMessage V B → Outcome → List (Effect V B)
  unfolding outbound_delivery_failed_event
  after_callback msg delivered = []
  after_callback msg (failed e) =
      reported (outbound_delivery_failed_event msg.channel msg.chat_id e) ∷ pulsed ∷ []
  after_callback msg panicked = recovered ∷ []

  -- One round of `DispatchOutbound`.
  unfoldable pub dispatch_one : Subscribers V B → OutboundMessage V B → List (Effect V B)
  unfolding lookup text_eq after_callback
  dispatch_one subs msg = elim (lookup msg.channel subs) [
    | none ↦ dropped ∷ []
    | some cb ↦ called msg ∷ after_callback msg (cb msg)
  ]
