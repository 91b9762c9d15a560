-- ===== src/Bus/Sound.antt =====
-- internal/kernel/bus/bus.go: the bounds of the buffers, and where the publishers are when `Close` ends.
use maven.Base.{
  ℕ, true, false, List, [], ◌∷◌, ◌++◌, ◌<◌, ◌≤◌, ◌≡◌, ◌≢◌, refl, sym, ap, ◌∙◌, arith, length,
  length-append,
}
use maven.Bus.Queues.{
  Stream, inbound, outbound, Packet, Bus, Label, new, queue_of, set_queue, leave, BusStep, enter,
  refuse, send, cancel, abort, panic, receive, close_begin, close_end, BusRun, here, then_step,
}

module _ {M : Type 0} where
  -- `Close` closes the channels behind the flag, when no publisher is in flight, and the queues
  -- stay within their buffers.
  pub record IsSound (b : Bus M) : Type 0 where
    pub flagged : b.channels_closed ≡ true → b.closed ≡ true
    pub landed : b.channels_closed ≡ true → b.in_flight ≡ []
    pub inbound_fits : length b.inbound_queue ≤ b.cap
    pub outbound_fits : length b.outbound_queue ≤ b.cap

  pub no_packet : (before after : List (Packet M)) (p : Packet M) → before ++ p ∷ after ≢ []
  no_packet [] after p e = absurd (ground arith)
  no_packet (q ∷ before) after p e = absurd (ground arith)

  send-IsSound :
      (s : Stream) (x : M) (in_flight : List (Packet M)) (b : Bus M)
      → IsSound b
      → b.channels_closed ≡ false
      → length (queue_of s b) < b.cap
      → IsSound (record (set_queue s (queue_of s b ++ x ∷ []) b) { in_flight = in_flight })
  send-IsSound inbound x fs b i o room = record {
    flagged = i.flagged;
    landed = λ t. absurd (ground arith);
    inbound_fits = omega (arith, length-append b.inbound_queue (x ∷ []));
    outbound_fits = i.outbound_fits;
  }
  send-IsSound outbound x fs b i o room = record {
    flagged = i.flagged;
    landed = λ t. absurd (ground arith);
    inbound_fits = i.inbound_fits;
    outbound_fits = omega (arith, length-append b.outbound_queue (x ∷ []));
  }

  receive-IsSound :
      (s : Stream) (x : M) (rest : List M) (b : Bus M)
      → queue_of s b ≡ x ∷ rest
      → IsSound b
      → IsSound (set_queue s rest b)
  receive-IsSound inbound x rest b e i = record {
    flagged = i.flagged;
    landed = i.landed;
    inbound_fits = omega (arith, i.inbound_fits, ap length e);
    outbound_fits = i.outbound_fits;
  }
  receive-IsSound outbound x rest b e i = record {
    flagged = i.flagged;
    landed = i.landed;
    inbound_fits = i.inbound_fits;
    outbound_fits = omega (arith, i.outbound_fits, ap length e);
  }

  leave-IsSound :
      (p : Packet M) (before after : List (Packet M)) (b : Bus M)
      → b.in_flight ≡ before ++ p ∷ after
      → IsSound b
      → IsSound (leave before after b)
  leave-IsSound p before after b e i = record {
    flagged = i.flagged;
    landed = λ t. absurd (no_packet before after p (sym e ∙ i.landed t));
    inbound_fits = i.inbound_fits;
    outbound_fits = i.outbound_fits;
  }

  open_still : {b : Bus M} → IsSound b → b.closed ≡ false → b.channels_closed ≡ true → ⊥
  open_still i o t = absurd (ground (arith, i.flagged t))

  pub step-IsSound : {b c : Bus M} {l : Label M} → IsSound b → BusStep b l c → IsSound c
  step-IsSound i (enter p o) = record {
    flagged = i.flagged;
    landed = λ t. absurd (open_still i o t);
    inbound_fits = i.inbound_fits;
    outbound_fits = i.outbound_fits;
  }
  step-IsSound i (refuse p o) = i
  step-IsSound {b} i (send p before after e o room) =
      send-IsSound p.stream p.message (before ++ after) b i o room
  step-IsSound {b} i (cancel p before after e) = leave-IsSound p before after b e i
  step-IsSound {b} i (abort p before after e o) = leave-IsSound p before after b e i
  step-IsSound i (panic p before after e o) = i
  step-IsSound {b} i (receive s m rest e) = receive-IsSound s m rest b e i
  step-IsSound i (close_begin o) = record {
    flagged = λ t. refl;
    landed = i.landed;
    inbound_fits = i.inbound_fits;
    outbound_fits = i.outbound_fits;
  }
  step-IsSound i (close_end o n e) = record {
    flagged = λ t. o;
    landed = λ t. e;
    inbound_fits = i.inbound_fits;
    outbound_fits = i.outbound_fits;
  }

  pub new-IsSound : (n : ℕ) → IsSound (new {M = M} n)
  unfolding new
  new-IsSound n = record {
    flagged = λ t. absurd (ground arith);
    landed = λ t. refl;
    inbound_fits = omega arith;
    outbound_fits = omega arith;
  }

  pub run-IsSound : {b c : Bus M} {ls : List (Label M)} → IsSound b → BusRun b ls c → IsSound c
  run-IsSound i here = i
  run-IsSound i (then_step r st) = step-IsSound (run-IsSound i r) st
