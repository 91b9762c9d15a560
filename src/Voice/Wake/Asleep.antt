-- ===== src/Voice/Wake/Asleep.antt =====
-- internal/kernel/voice/wake.go: a sleeping gate, and the window of one that is awake.
use maven.Base.{
  Bool, true, false, Option, none, some, List, [], ◌∷◌, ◌++◌, ◌≡◌, refl, ap, ◌∙◌, arith, All,
  if◌then◌else◌,
}
use mathlib.Core.Path.{ap₂}
use maven.Base.Text.{Text}
use maven.Base.Unicode.{Unicode}
use maven.Voice.Wake.{
  match_wake, SpeechEvent, speech_start, utterance, other_event, Gate, dormant, awaiting, woken,
  gate_step, Happening, timer_fired, reply_done, heard, after_reply, GateStep, closes, extends,
  hears, Listens, at_rest, goes_on,
}

module _ (u : Unicode) (phrase : Text) where
  -- Nothing that begins with the wake phrase.
  abbrev pub IsUnmatched : Happening → Type 0
  IsUnmatched timer_fired = Unit
  IsUnmatched reply_done = Unit
  IsUnmatched (heard speech_start) = Unit
  IsUnmatched (heard other_event) = Unit
  IsUnmatched (heard (utterance text)) = match_wake u text phrase ≡ none

  hears-nothing :
      (e : SpeechEvent) → IsUnmatched (heard e) → gate_step u phrase e dormant ≡ ([], dormant)
  unfolding gate_step
  hears-nothing speech_start h = refl
  hears-nothing other_event h = refl
  hears-nothing (utterance text) h = rw h refl

  step_asleep :
      {g : Gate} {h : Happening} {out : List SpeechEvent} {b : Gate}
      → g ≡ dormant
      → IsUnmatched h
      → GateStep u phrase g h out b
      → (out ≡ []) × (b ≡ dormant)
  step_asleep {g} q n (closes r) = (refl, refl)
  step_asleep {g} q n extends = (refl, ap after_reply q ∙ (unfold after_reply in refl))
  step_asleep {g} q n (hears e) =
      let same : gate_step u phrase e g ≡ ([], dormant) =
        ap (gate_step u phrase e) q ∙ hears-nothing e n in
      (ap (λ p. p.0) same, ap (λ p. p.1) same)

  -- From the start, and as long as no utterance begins with the wake phrase, nothing is forwarded
  -- and the gate stays asleep, whatever else happens and in whatever order.
  pub asleep_hears_nothing :
      (hs : List Happening) (out : List SpeechEvent) (g : Gate)
      → Listens u phrase dormant hs out g
      → All IsUnmatched hs
      → (out ≡ []) × (g ≡ dormant)
  asleep_hears_nothing hs out g at_rest n = (refl, refl)
  asleep_hears_nothing hs out g (goes_on {out = before} {more} r st) (n, ns) =
      let (silent, asleep) = asleep_hears_nothing _ _ _ r ns in
      let (q, b) = step_asleep asleep n st in (ap₂ (λ x y. x ++ y) silent q, b)

  -- The timer runs only in a gate that is awake and waits for no reply.
  abbrev pub IsPaused : Gate → Type 0
  IsPaused g = g.timer_runs ≡ true → (g.active ≡ true) × (g.awaiting_reply ≡ false)

  woken-IsPaused :
      (text : Text) (r : Option Text) (g : Gate) → IsPaused g → IsPaused (woken u text r g).1
  woken-IsPaused text none g i = i
  woken-IsPaused text (some remainder) g i = λ e. absurd (ground arith)

  chosen-IsPaused :
      {A : Type 0} (gate : A → Gate) (a : Bool) (x y : A)
      → IsPaused (gate x)
      → IsPaused (gate y)
      → IsPaused (gate (if a then x else y))
  chosen-IsPaused gate true x y i j = i
  chosen-IsPaused gate false x y i j = j

  hears-IsPaused : (e : SpeechEvent) (g : Gate) → IsPaused g → IsPaused (gate_step u phrase e g).1
  unfolding gate_step
  hears-IsPaused speech_start g i = i
  hears-IsPaused other_event g i = i
  hears-IsPaused (utterance text) g i =
      chosen-IsPaused (λ r. r.1) g.active (utterance text ∷ [], awaiting)
        (woken u text (match_wake u text phrase) g) (λ e. absurd (ground arith))
        (woken-IsPaused text (match_wake u text phrase) g i)

  step-IsPaused :
      {g : Gate} {h : Happening} {out : List SpeechEvent} {b : Gate}
      → IsPaused g
      → GateStep u phrase g h out b
      → IsPaused b
  unfolding after_reply
  step-IsPaused {g} i (closes r) = λ e. absurd (ground arith)
  step-IsPaused {g} i extends =
      chosen-IsPaused (λ b. b) g.active
        (record { active = true; awaiting_reply = false; timer_runs = true }) g (λ e. (refl, refl))
        i
  step-IsPaused {g} i (hears e) = hears-IsPaused e g i

  -- In all that a gate can come to, its timer runs only while it is awake and no reply is awaited,
  -- so that the window does not close between an utterance and the end of its reply.
  pub listening-IsPaused :
      (hs : List Happening) (out : List SpeechEvent) (g : Gate)
      → Listens u phrase dormant hs out g
      → IsPaused g
  listening-IsPaused hs out g at_rest = λ e. absurd (ground arith)
  listening-IsPaused hs out g (goes_on r st) = step-IsPaused (listening-IsPaused _ _ _ r) st
