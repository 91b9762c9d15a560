-- ===== src/Bus/Refine.antt =====
-- internal/kernel/bus/bus.go: its steps are those of the mailbox of its queues.
use maven.Base.{ℕ, false, List, [], ◌∷◌, ◌++◌, ◌≤◌, ◌≡◌, sym, ◌∙◌, length}
use maven.Bus.Mailbox.{Allows, silent, puts, gets, shuts, AllowsAll, none_yet, one_more, view}
use maven.Bus.Sound.{IsSound, no_packet, run-IsSound, new-IsSound}
use maven.Bus.Queues.{
  Stream, inbound, outbound, Bus, Label, entered, refused, sent, cancelled, aborted, received,
  close_began, new, queue_of, set_queue, BusStep, enter, refuse, send, cancel, abort, panic,
  receive, close_begin, close_end, BusRun, here, then_step,
}

module _ {M : Type 0} where
  send-Allows :
      (s : Stream) (x : M) (b : Bus M)
      → b.channels_closed ≡ false
      → Allows
          (view b)
          (sent (record { stream = s; message = x }))
          (view (set_queue s (queue_of s b ++ x ∷ []) b))
  send-Allows inbound x b o = puts (record { stream = inbound; message = x }) o
  send-Allows outbound x b o = puts (record { stream = outbound; message = x }) o

  receive-Allows :
      (s : Stream) (x : M) (rest : List M) (b : Bus M)
      → queue_of s b ≡ x ∷ rest
      → Allows (view b) (received (record { stream = s; message = x })) (view (set_queue s rest b))
  receive-Allows inbound x rest b e = gets inbound x rest e
  receive-Allows outbound x rest b e = gets outbound x rest e

  -- A step of a sound bus is one that the mailbox allows.
  step_refines :
      {b c : Bus M} {l : Label M} → IsSound b → BusStep b l c → Allows (view b) l (view c)
  step_refines i (enter p o) = silent (entered p) tt
  step_refines i (refuse p o) = silent (refused p) tt
  step_refines {b} i (send p before after e o room) = send-Allows p.stream p.message b o
  step_refines i (cancel p before after e) = silent (cancelled p) tt
  step_refines i (abort p before after e o) = silent (aborted p) tt
  step_refines i (panic p before after e o) = absurd (no_packet before after p (sym e ∙ i.landed o))
  step_refines {b} i (receive s m rest e) = receive-Allows s m rest b e
  step_refines i (close_begin o) = silent close_began tt
  step_refines i (close_end o n e) = shuts n

  run_allowed :
      {b c : Bus M} {ls : List (Label M)}
      → IsSound b
      → BusRun b ls c
      → AllowsAll (view b) ls (view c)
  run_allowed i here = none_yet
  run_allowed i (then_step r st) = one_more (run_allowed i r) (step_refines (run-IsSound i r) st)

  -- Whatever publishers, receivers and `Close` do, and in whatever order, what the bus shows is
  -- allowed by the mailbox of its queues: no send on a closed channel, no message put after the
  -- channels are closed, and each receive takes the first message of its queue. The buffers hold at
  -- most as many messages as they were made for.
  pub run_refines :
      (buf_size : ℕ) (b : Bus M) (ls : List (Label M))
      → BusRun (new buf_size) ls b
      → AllowsAll (view (new buf_size)) ls (view b)
        × (length b.inbound_queue ≤ b.cap)
        × (length b.outbound_queue ≤ b.cap)
  run_refines n b ls r =
      let i = run-IsSound (new-IsSound n) r in
      (run_allowed (new-IsSound n) r, i.inbound_fits, i.outbound_fits)
