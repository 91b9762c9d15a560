-- ===== src/Bus/Closing.antt =====
-- internal/kernel/bus/bus.go: what can happen once `Close` has returned.
use maven.Base.{ℕ, Bool, true, false, List, ◌∷◌, ◌++◌, ◌≡◌, sym, ◌∙◌, arith, All}
use maven.Bus.Sound.{IsSound, no_packet, run-IsSound, new-IsSound}
use maven.Bus.Queues.{
  Stream, Packet, Bus, Label, entered, refused, sent, cancelled, aborted, panicked, received,
  close_began, close_ended, new, set_queue, BusStep, enter, refuse, send, cancel, abort, panic,
  receive, close_begin, close_end, BusRun, here, then_step, inbound, outbound,
}

clash : {b : Bool} → b ≡ true → b ≡ false → ⊥
clash t f = absurd (ground arith)

module _ {M : Type 0} where
  -- A publish that is refused at once, or a receive.
  abbrev pub IsQuiet : Label M → Type 0
  IsQuiet (refused p) = Unit
  IsQuiet (received p) = Unit
  IsQuiet (entered p) = ⊥
  IsQuiet (sent p) = ⊥
  IsQuiet (cancelled p) = ⊥
  IsQuiet (aborted p) = ⊥
  IsQuiet (panicked p) = ⊥
  IsQuiet close_began = ⊥
  IsQuiet close_ended = ⊥

  no_flight :
      {b : Bus M} (before after : List (Packet M)) (p : Packet M)
      → IsSound b
      → b.channels_closed ≡ true
      → b.in_flight ≡ before ++ p ∷ after
      → ⊥
  no_flight before after p i c e = no_packet before after p (sym e ∙ i.landed c)

  receive-closed :
      (s : Stream) (rest : List M) (b : Bus M)
      → b.channels_closed ≡ true
      → (set_queue s rest b).channels_closed ≡ true
  receive-closed inbound rest b c = c
  receive-closed outbound rest b c = c

  step-IsQuiet :
      {b d : Bus M} {l : Label M}
      → IsSound b
      → b.channels_closed ≡ true
      → BusStep b l d
      → IsQuiet l × (d.channels_closed ≡ true)
  step-IsQuiet i c (enter p o) = absurd (clash (i.flagged c) o)
  step-IsQuiet i c (refuse p o) = (tt, c)
  step-IsQuiet i c (send p before after e o room) = absurd (clash c o)
  step-IsQuiet i c (cancel p before after e) = absurd (no_flight before after p i c e)
  step-IsQuiet i c (abort p before after e o) = absurd (no_flight before after p i c e)
  step-IsQuiet i c (panic p before after e o) = absurd (no_flight before after p i c e)
  step-IsQuiet {b} i c (receive s m rest e) = (tt, receive-closed s rest b c)
  step-IsQuiet i c (close_begin o) = absurd (clash (i.flagged c) o)
  step-IsQuiet i c (close_end o n e) = absurd (clash c n)

  run-IsQuiet :
      {b d : Bus M} {ls : List (Label M)}
      → IsSound b
      → b.channels_closed ≡ true
      → BusRun b ls d
      → All IsQuiet ls × (d.channels_closed ≡ true)
  run-IsQuiet i c here = (tt, c)
  run-IsQuiet i c (then_step r st) =
      let (quiet, c') = run-IsQuiet i c r in
      let (q, c'') = step-IsQuiet (run-IsSound i r) c' st in ((q, quiet), c'')

  -- Once `Close` of a new bus has ended, whatever happened before, every publish is refused at once
  -- and nothing else happens but receives of what is left.
  pub closed_refuses :
      (buf_size : ℕ) (b d : Bus M) (ls ks : List (Label M))
      → BusRun (new buf_size) ls b
      → b.channels_closed ≡ true
      → BusRun b ks d
      → All IsQuiet ks
  closed_refuses n b d ls ks before c after =
      (run-IsQuiet (run-IsSound (new-IsSound n) before) c after).0
