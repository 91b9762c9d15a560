-- ===== src/Bus/Mailbox.antt =====
-- internal/kernel/bus/bus.go: what a bus promises: queues that take messages until they are shut.
use maven.Base.{Bool, true, false, List, [], ◌∷◌, ◌++◌, ◌≡◌}
use maven.Bus.Queues.{
  Stream, inbound, outbound, Packet, Bus, Label, entered, refused, sent, cancelled, aborted,
  panicked, received, close_began, close_ended,
}

module _ (M : Type 0) where
  -- Two unbounded queues that take messages until they are shut.
  pub record Mailbox : Type 0 where
    pub shut : Bool
    pub inbound_box : List M
    pub outbound_box : List M

module _ {M : Type 0} where
  abbrev pub box_of : Stream → Mailbox M → List M
  box_of inbound m = m.inbound_box
  box_of outbound m = m.outbound_box

  abbrev pub set_box : Stream → List M → Mailbox M → Mailbox M
  set_box inbound q m = record m { inbound_box = q }
  set_box outbound q m = record m { outbound_box = q }

  -- What shows on the outside only that a publish began or failed.
  abbrev pub IsSilent : Label M → Type 0
  IsSilent (entered p) = Unit
  IsSilent (refused p) = Unit
  IsSilent (cancelled p) = Unit
  IsSilent (aborted p) = Unit
  IsSilent close_began = Unit
  IsSilent (sent p) = ⊥
  IsSilent (panicked p) = ⊥
  IsSilent (received p) = ⊥
  IsSilent close_ended = ⊥

  -- A step that the mailbox allows. There is none for a panic.
  pub data Allows (m : Mailbox M) : Label M → Mailbox M → Type 0 where
    silent : (l : Label M) → IsSilent l → Allows m l m
    puts :
        (p : Packet M)
        → m.shut ≡ false
        → Allows m (sent p) (set_box p.stream (box_of p.stream m ++ p.message ∷ []) m)
    gets :
        (s : Stream) (x : M) (rest : List M)
        → box_of s m ≡ x ∷ rest
        → Allows m (received (record { stream = s; message = x })) (set_box s rest m)
    shuts : m.shut ≡ false → Allows m close_ended (record m { shut = true })

  pub data AllowsAll (m : Mailbox M) : List (Label M) → Mailbox M → Type 0 where
    none_yet : AllowsAll m [] m
    one_more :
        {ls : List (Label M)} {l : Label M} {n o : Mailbox M}
        → AllowsAll m ls n
        → Allows n l o
        → AllowsAll m (l ∷ ls) o

  -- What the mailbox sees of a bus.
  abbrev pub view : Bus M → Mailbox M
  view b = record {
    shut = b.channels_closed;
    inbound_box = b.inbound_queue;
    outbound_box = b.outbound_queue;
  }
