-- ===== src/Bus/Tests.antt =====
-- Runs of internal/kernel/bus, and its theorems at them.
use maven.Base.{ℕ, true, none, some, List, [], ◌∷◌, ◌++◌, ◌≤◌, ◌≡◌, refl, arith, All, length}
use maven.Base.Text.{codes, trim_space}
use maven.Bus.Messages.{OutboundMessage}
use maven.Bus.Queues.{
  inbound, Packet, Bus, Label, entered, refused, sent, received, close_began, close_ended, new,
  enter, refuse, send, receive, close_begin, close_end, BusRun, here, then_step,
}
use maven.Bus.Mailbox.{AllowsAll, view}
use maven.Bus.Refine.{run_refines}
use maven.Bus.Fifo.{run-Fifo, sent_on, received_on}
use maven.Bus.Closing.{closed_refuses, IsQuiet}
use maven.Bus.Delivery.{
  called, reported, pulsed, dropped, failed, set_outbound_subscriber, dispatch_one,
  outbound_delivery_failed_event,
}

abbrev packet : Packet ℕ
packet = record { stream = inbound; message = 7 }

-- A message is sent, and the bus is closed while it waits.
abbrev closed_bus : Bus ℕ
closed_bus = record {
  cap = 1;
  closed = true;
  channels_closed = true;
  in_flight = [];
  inbound_queue = 7 ∷ [];
  outbound_queue = [];
}

abbrev labels : List (Label ℕ)
labels = close_ended ∷ sent packet ∷ close_began ∷ entered packet ∷ []

closing_run : BusRun (new 1) labels closed_bus
unfolding new
closing_run =
    then_step
      (then_step (then_step (then_step here (enter packet refl)) (close_begin refl))
        (send packet [] [] refl refl (omega arith)))
      (close_end refl refl refl)

late_run :
    BusRun closed_bus
      (received packet ∷ refused packet ∷ [])
      (record closed_bus { inbound_queue = [] })
late_run = then_step (then_step here (refuse packet refl)) (receive inbound 7 [] refl)

run_refines_example :
    AllowsAll (view (new 1)) labels (view closed_bus)
    × (length closed_bus.inbound_queue ≤ 1)
    × (length closed_bus.outbound_queue ≤ 1)
run_refines_example = run_refines 1 closed_bus labels closing_run

run-Fifo_example : sent_on inbound labels ≡ received_on inbound labels ++ 7 ∷ []
run-Fifo_example = run-Fifo 1 closed_bus labels inbound closing_run

closed_refuses_example : All IsQuiet (received packet ∷ refused packet ∷ [])
closed_refuses_example =
    closed_refuses 1 closed_bus (record closed_bus { inbound_queue = [] }) labels
      (received packet ∷ refused packet ∷ []) closing_run refl late_run

abbrev reply : OutboundMessage ℕ ℕ
reply = record {
  channel = codes "web";
  chat_id = codes "1";
  content = codes "hi";
  reply_to = [];
  media = [];
  metadata = none;
  content_blocks = [];
}

reports_failure :
    dispatch_one
      (set_outbound_subscriber (codes " web ") (some (λ m. failed (codes "gone"))) [])
      reply
    ≡ called reply
      ∷ reported (outbound_delivery_failed_event (codes "web") (codes "1") (codes "gone"))
      ∷ pulsed
      ∷ []
unfolding dispatch_one set_outbound_subscriber trim_space
reports_failure = refl

drops_without_subscriber : dispatch_one [] reply ≡ dropped ∷ []
unfolding dispatch_one
drops_without_subscriber = refl
