-- ===== src/Bus/Fifo.antt =====
-- internal/kernel/bus/bus.go: messages leave a queue in the order of their sends.
use maven.Base.{ℕ, List, [], ◌∷◌, ◌++◌, ◌≡◌, refl, sym, ap, ◌∙◌, append_assoc, append-nil}
use maven.Bus.Mailbox.{
  Mailbox, box_of, set_box, IsSilent, Allows, silent, puts, gets, shuts, AllowsAll, none_yet,
  one_more, view,
}
use maven.Bus.Refine.{run_refines}
use maven.Bus.Queues.{
  Stream, inbound, outbound, Packet, Bus, Label, entered, refused, sent, cancelled, aborted,
  panicked, received, close_began, close_ended, new, BusRun,
}

module _ {M : Type 0} where
  abbrev by_streams : Stream → Stream → M → List M
  by_streams inbound inbound m = m ∷ []
  by_streams inbound outbound m = []
  by_streams outbound inbound m = []
  by_streams outbound outbound m = m ∷ []

  abbrev one_of : Stream → Packet M → List M
  one_of s p = by_streams s p.stream p.message

  -- The messages of a stream that a run has sent, and those that it has received, oldest first.
  abbrev pub sent_on : Stream → List (Label M) → List M
  sent_on s [] = []
  sent_on s (entered p ∷ ls) = sent_on s ls
  sent_on s (refused p ∷ ls) = sent_on s ls
  sent_on s (sent p ∷ ls) = sent_on s ls ++ one_of s p
  sent_on s (cancelled p ∷ ls) = sent_on s ls
  sent_on s (aborted p ∷ ls) = sent_on s ls
  sent_on s (panicked p ∷ ls) = sent_on s ls
  sent_on s (received p ∷ ls) = sent_on s ls
  sent_on s (close_began ∷ ls) = sent_on s ls
  sent_on s (close_ended ∷ ls) = sent_on s ls

  abbrev pub received_on : Stream → List (Label M) → List M
  received_on s [] = []
  received_on s (entered p ∷ ls) = received_on s ls
  received_on s (refused p ∷ ls) = received_on s ls
  received_on s (sent p ∷ ls) = received_on s ls
  received_on s (cancelled p ∷ ls) = received_on s ls
  received_on s (aborted p ∷ ls) = received_on s ls
  received_on s (panicked p ∷ ls) = received_on s ls
  received_on s (received p ∷ ls) = received_on s ls ++ one_of s p
  received_on s (close_began ∷ ls) = received_on s ls
  received_on s (close_ended ∷ ls) = received_on s ls

  -- What the boxes have to do with the sends and the receives.
  abbrev Balanced : Stream → List (Label M) → Mailbox M → Type 0
  Balanced s ls m = sent_on s ls ≡ received_on s ls ++ box_of s m

  silent-Balanced :
      (s : Stream) (l : Label M) (ls : List (Label M)) (m : Mailbox M)
      → IsSilent l
      → Balanced s ls m
      → Balanced s (l ∷ ls) m
  silent-Balanced s (entered p) ls m q h = h
  silent-Balanced s (refused p) ls m q h = h
  silent-Balanced s (cancelled p) ls m q h = h
  silent-Balanced s (aborted p) ls m q h = h
  silent-Balanced s close_began ls m q h = h
  silent-Balanced s (sent p) ls m q h = absurd q
  silent-Balanced s (panicked p) ls m q h = absurd q
  silent-Balanced s (received p) ls m q h = absurd q
  silent-Balanced s close_ended ls m q h = absurd q

  put-box :
      (s t : Stream) (x : M) (m : Mailbox M)
      → box_of s (set_box t (box_of t m ++ x ∷ []) m) ≡ box_of s m ++ by_streams s t x
  put-box inbound inbound x m = refl
  put-box inbound outbound x m = sym (append-nil m.inbound_box)
  put-box outbound inbound x m = sym (append-nil m.outbound_box)
  put-box outbound outbound x m = refl

  get-box :
      (s t : Stream) (x : M) (rest : List M) (m : Mailbox M)
      → box_of t m ≡ x ∷ rest
      → box_of s m ≡ by_streams s t x ++ box_of s (set_box t rest m)
  get-box inbound inbound x rest m e = e
  get-box inbound outbound x rest m e = refl
  get-box outbound inbound x rest m e = refl
  get-box outbound outbound x rest m e = e

  step-Balanced :
      (s : Stream) {l : Label M} (ls : List (Label M)) {m n : Mailbox M}
      → Allows m l n
      → Balanced s ls m
      → Balanced s (l ∷ ls) n
  step-Balanced s ls {m} (silent l q) h = silent-Balanced s l ls m q h
  step-Balanced s ls {m} (puts p o) h =
      ap (λ (q : List M). q ++ one_of s p) h
      ∙ (append_assoc (received_on s ls) (box_of s m) (one_of s p)
          ∙ ap (λ (q : List M). received_on s ls ++ q) (sym (put-box s p.stream p.message m)))
  step-Balanced s ls {m} (gets t x rest e) h =
      h
      ∙ (ap (λ (q : List M). received_on s ls ++ q) (get-box s t x rest m e)
          ∙ sym (append_assoc (received_on s ls) (by_streams s t x) (box_of s (set_box t rest m))))
  step-Balanced inbound ls (shuts o) h = h
  step-Balanced outbound ls (shuts o) h = h

  all-Balanced :
      (s : Stream) {m : Mailbox M} {ls : List (Label M)} {n : Mailbox M}
      → AllowsAll m ls n
      → box_of s m ≡ []
      → Balanced s ls n
  all-Balanced s none_yet e = sym e
  all-Balanced s (one_more {ls} r a) e = step-Balanced s ls a (all-Balanced s r e)

  -- In any run of a new bus, the messages sent on a stream, in their order, are those received from
  -- it, in their order, with those still in its queue behind: none is lost, doubled or overtaken,
  -- also when the bus is closed.
  pub run-Fifo :
      (buf_size : ℕ) (b : Bus M) (ls : List (Label M)) (s : Stream)
      → BusRun (new buf_size) ls b
      → sent_on s ls ≡ received_on s ls ++ box_of s (view b)
  run-Fifo n b ls s r = all-Balanced s (run_refines n b ls r).0 (empty_box s)
    where
      empty_box : (t : Stream) → box_of t (view (new {M = M} n)) ≡ []
      empty_box inbound = unfold new in refl
      empty_box outbound = unfold new in refl
