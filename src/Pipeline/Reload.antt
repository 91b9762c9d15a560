-- ===== src/Pipeline/Reload.antt =====
-- internal/kernel/pipeline/pipeline.go: `Reload` and the turns that use the runtime, as a step
-- relation. The lock of `turnMu` is held for reading by the turns in progress, so that what happens
-- under its writer lock is one step in which there are none. A runtime is a value of `R`.
pub mod Drained
use maven.Base.{Option, none, some, List, [], ◌∷◌, ◌++◌, ◌≡◌, ◌≢◌, All}

module _ (R : Type 0) where
  -- `Pipeline`, as far as runtimes go: the turns in progress with the runtime that each has read,
  -- the streams that `RunStream` has handed out, and the runtimes that are about to be closed and
  -- that are.
  pub record Runtimes : Type 0 where
    pub rt : Option R
    pub turns : List R
    pub streams : List R
    pub closing : List R
    pub closed : List R

abbrev pub old_of : {R : Type 0} → Option R → List R
old_of none = []
old_of (some r) = r ∷ []

-- `New`, at a runtime.
abbrev pub with_runtime : {R : Type 0} → R → Runtimes R
with_runtime r = record { rt = some r; turns = []; streams = []; closing = []; closed = [] }

module _ {R : Type 0} where
  -- A runtime that is none of those that have been closed, and not the current one.
  pub record IsFresh (new : R) (s : Runtimes R) : Type 0 where
    pub not_current : s.rt ≢ some new
    pub not_closing : All (λ r. r ≢ new) s.closing
    pub not_closed : All (λ r. r ≢ new) s.closed

  pub data RuntimeStep (s : Runtimes R) : Runtimes R → Type 0 where
    -- `handle` and `RunTurn`, from their `RLock` to their `RUnlock`.
    begin_turn : (r : R) → s.rt ≡ some r → RuntimeStep s (record s { turns = r ∷ s.turns })
    end_turn :
        (r : R) (before after : List R)
        → s.turns ≡ before ++ r ∷ after
        → RuntimeStep s (record s { turns = before ++ after })
    -- `RunStream`, whose lock ends with it, and the end of its stream.
    run_stream : (r : R) → s.rt ≡ some r → RuntimeStep s (record s { streams = r ∷ s.streams })
    end_stream :
        (r : R) (before after : List R)
        → s.streams ≡ before ++ r ∷ after
        → RuntimeStep s (record s { streams = before ++ after })
    -- `Reload` up to its `Unlock`, and its `Close` of the old runtime.
    reload :
        (new : R)
        → IsFresh new s
        → s.turns ≡ []
        → RuntimeStep s (record s { rt = some new; closing = old_of s.rt ++ s.closing })
    close_old :
        (r : R) (before after : List R)
        → s.closing ≡ before ++ r ∷ after
        → RuntimeStep s (record s { closing = before ++ after; closed = r ∷ s.closed })
    -- `TakeRuntimeForShutdown`, whose caller closes the runtime.
    take_runtime_for_shutdown :
        s.turns ≡ [] → RuntimeStep s (record s { rt = none; closing = old_of s.rt ++ s.closing })

  pub data Reloads (s : Runtimes R) : Runtimes R → Type 0 where
    at_start : Reloads s s
    and_then : {a b : Runtimes R} → Reloads s a → RuntimeStep a b → Reloads s b
