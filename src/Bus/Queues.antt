-- ===== src/Bus/Queues.antt =====
-- internal/kernel/bus/bus.go: `publishEnqueue` and `Close` as a step relation. Between any two steps
-- another goroutine may take one; what the mutex `pubMu` guards is one step. A publisher that has
-- passed the check of `closed` is in flight until its `select` ends.
use maven.Base.{ℕ, Bool, true, false, List, [], ◌∷◌, ◌++◌, ◌==◌, ◌<◌, ◌≡◌, if◌then◌else◌, length}

-- The two queues of the bus.
pub data Stream : Type 0 where
  inbound outbound : Stream

module _ (M : Type 0) where
  -- A message for one of the queues.
  pub record Packet : Type 0 where
    pub stream : Stream
    pub message : M

  -- `MessageBus`, as far as publishing and closing see it: `done` is closed with `closed`.
  pub record Bus : Type 0 where
    pub cap : ℕ
    pub closed : Bool
    pub channels_closed : Bool
    pub in_flight : List Packet
    pub inbound_queue : List M
    pub outbound_queue : List M

  -- What a step shows. `entered` has passed the check of `closed`; `refused`, `cancelled` and
  -- `aborted` are the errors of a publish; `panicked` is a send on a closed channel.
  pub data Label : Type 0 where
    entered refused sent cancelled aborted panicked : Packet → Label
    received : Packet → Label
    close_began close_ended : Label

-- `New`: an empty bus.
unfoldable pub new : {M : Type 0} → ℕ → Bus M
new buf_size = record {
  cap = if buf_size == 0 then 100 else buf_size;
  closed = false;
  channels_closed = false;
  in_flight = [];
  inbound_queue = [];
  outbound_queue = [];
}

module _ {M : Type 0} where
  abbrev pub queue_of : Stream → Bus M → List M
  queue_of inbound b = b.inbound_queue
  queue_of outbound b = b.outbound_queue

  abbrev pub set_queue : Stream → List M → Bus M → Bus M
  set_queue inbound q b = record b { inbound_queue = q }
  set_queue outbound q b = record b { outbound_queue = q }

  -- The end of a publisher that stands between others.
  abbrev pub leave : List (Packet M) → List (Packet M) → Bus M → Bus M
  leave before after b = record b { in_flight = before ++ after }

  pub data BusStep (b : Bus M) : Label M → Bus M → Type 0 where
    -- The lock of `publishEnqueue`.
    enter :
        (p : Packet M)
        → b.closed ≡ false
        → BusStep b (entered p) (record b { in_flight = p ∷ b.in_flight })
    refuse : (p : Packet M) → b.closed ≡ true → BusStep b (refused p) b
    -- The cases of its `select`.
    send :
        (p : Packet M) (before after : List (Packet M))
        → b.in_flight ≡ before ++ p ∷ after
        → b.channels_closed ≡ false
        → length (queue_of p.stream b) < b.cap
        → BusStep b
            (sent p)
            (leave before after (set_queue p.stream (queue_of p.stream b ++ p.message ∷ []) b))
    cancel :
        (p : Packet M) (before after : List (Packet M))
        → b.in_flight ≡ before ++ p ∷ after
        → BusStep b (cancelled p) (leave before after b)
    abort :
        (p : Packet M) (before after : List (Packet M))
        → b.in_flight ≡ before ++ p ∷ after
        → b.closed ≡ true
        → BusStep b (aborted p) (leave before after b)
    panic :
        (p : Packet M) (before after : List (Packet M))
        → b.in_flight ≡ before ++ p ∷ after
        → b.channels_closed ≡ true
        → BusStep b (panicked p) b
    -- A receive by the pipeline or by `DispatchOutbound`; a closed channel still gives its rest.
    receive :
        (s : Stream) (m : M) (rest : List M)
        → queue_of s b ≡ m ∷ rest
        → BusStep b (received (record { stream = s; message = m })) (set_queue s rest b)
    -- `Close` up to its `wg.Wait()`, which `closeOnce` lets happen once, and from there on.
    close_begin : b.closed ≡ false → BusStep b close_began (record b { closed = true })
    close_end :
        b.closed ≡ true
        → b.channels_closed ≡ false
        → b.in_flight ≡ []
        → BusStep b close_ended (record b { channels_closed = true })

  -- A run with what its steps show, the last step first.
  pub data BusRun (b : Bus M) : List (Label M) → Bus M → Type 0 where
    here : BusRun b [] b
    then_step :
        {ls : List (Label M)} {l : Label M} {c d : Bus M}
        → BusRun b ls c
        → BusStep c l d
        → BusRun b (l ∷ ls) d
