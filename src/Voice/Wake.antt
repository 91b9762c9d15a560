-- ===== src/Voice/Wake.antt =====
-- internal/kernel/voice/wake.go: the gate that lets an utterance through only behind a wake phrase.
-- The timer is whether it runs; its window, and the events of other kinds, are left out.
pub mod Asleep
use maven.Base.{
  ℕ, Bool, true, false, not, ◌||◌, Option, none, some, List, [], ◌∷◌, ◌++◌, ◌≡◌, if◌then◌else◌,
  is_empty, map, keep,
}
use maven.Base.Text.{Text, codes, is_space, trim_space, text_eq, join}
use maven.Base.Unicode.{Unicode, to_lower, is_letter, is_digit}

-- `strings.Fields`, with the word that is being read.
unfoldable pub fields_from : Text → Text → List Text
unfolding is_space
fields_from word [] = if is_empty word then [] else word ∷ []
fields_from word (c ∷ s) =
    let split = fields_from [] s in
    let more = fields_from (word ++ c ∷ []) s in
    if is_space c then (if is_empty word then split else word ∷ split) else more

unfoldable pub fields : Text → List Text
unfolding fields_from
fields s = fields_from [] s

module _ (u : Unicode) where
  -- `normalizeToken`.
  unfoldable pub normalize_token : Text → Text
  unfolding to_lower is_letter is_digit
  normalize_token s = keep (λ r. is_letter u r || is_digit u r) (to_lower u s)

  -- `normalizeWake`.
  unfoldable pub normalize_wake : Text → Text
  unfolding fields normalize_token join
  normalize_wake s =
      join (codes " ") (keep (λ t. not (is_empty t)) (map normalize_token (fields s)))

  -- The loop of `matchWake`: what is left of the tokens behind those of the phrase.
  unfoldable pub match_tokens : List Text → List Text → Option (List Text)
  unfolding normalize_token text_eq
  match_tokens [] tokens = some tokens
  match_tokens (p ∷ ps) [] = none
  match_tokens (p ∷ ps) (t ∷ ts) =
      let rest = match_tokens ps ts in if text_eq (normalize_token t) p then rest else none

  abbrev pub remainder_of : Option (List Text) → Option Text
  remainder_of none = none
  remainder_of (some tokens) = some (trim_space (join (codes " ") tokens))

  -- `matchWake`; none is no match.
  unfoldable pub match_wake : Text → Text → Option Text
  unfolding fields match_tokens join trim_space
  match_wake utterance phrase =
      if is_empty (fields phrase)
      then none
      else remainder_of (match_tokens (fields phrase) (fields utterance))

-- `converse.Event`.
pub data SpeechEvent : Type 0 where
  speech_start : SpeechEvent
  utterance : Text → SpeechEvent
  other_event : SpeechEvent

-- The variables of `Listen`, and whether the timer runs.
pub record Gate : Type 0 where
  pub active : Bool
  pub awaiting_reply : Bool
  pub timer_runs : Bool

-- The gate before the first event.
abbrev pub dormant : Gate
dormant = record { active = false; awaiting_reply = false; timer_runs = false }

-- A gate that waits for a reply, its timer stopped.
abbrev pub awaiting : Gate
awaiting = record { active = true; awaiting_reply = true; timer_runs = false }

module _ (u : Unicode) where
  -- `NewWakeGate`: the phrase of the gate; without one, the source stays as it is.
  unfoldable pub new_wake_gate : Text → Option Text
  unfolding normalize_wake
  new_wake_gate phrase =
      let normalized = normalize_wake u phrase in
      if is_empty normalized then none else some normalized

  abbrev pub woken : Text → Option Text → Gate → List SpeechEvent × Gate
  woken text none g = ([], g)
  woken text (some remainder) g =
      (utterance (if is_empty remainder then trim_space text else remainder) ∷ [], awaiting)

  -- `step`: what is forwarded, and the gate after it.
  unfoldable pub gate_step : Text → SpeechEvent → Gate → List SpeechEvent × Gate
  unfolding match_wake trim_space
  gate_step phrase speech_start g = (if g.active then speech_start ∷ [] else [], g)
  gate_step phrase (utterance text) g =
      if g.active then (utterance text ∷ [], awaiting) else woken text (match_wake u text phrase) g
  gate_step phrase other_event g = ([], g)

-- What may happen next in the loop of `Listen`.
pub data Happening : Type 0 where
  timer_fired reply_done : Happening
  heard : SpeechEvent → Happening

-- The case of `replyDone`.
unfoldable pub after_reply : Gate → Gate
after_reply g =
    if g.active then record { active = true; awaiting_reply = false; timer_runs = true } else g

module _ (u : Unicode) (phrase : Text) where
  -- One round of the loop: what happens, what is forwarded, and the gate after it.
  pub data GateStep (g : Gate) : Happening → List SpeechEvent → Gate → Type 0 where
    closes : g.timer_runs ≡ true → GateStep g timer_fired [] dormant
    extends : GateStep g reply_done [] (after_reply g)
    hears :
        (e : SpeechEvent)
        → GateStep g (heard e) (gate_step u phrase e g).0 (gate_step u phrase e g).1

  -- The loop, the last round first, with all that it forwards.
  pub data Listens (g : Gate) : List Happening → List SpeechEvent → Gate → Type 0 where
    at_rest : Listens g [] [] g
    goes_on :
        {hs : List Happening} {out more : List SpeechEvent} {h : Happening} {a b : Gate}
        → Listens g hs out a
        → GateStep a h more b
        → Listens g (h ∷ hs) (out ++ more) b
