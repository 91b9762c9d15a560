-- ===== src/Telegram/Stream/Cooldown.antt =====
-- internal/plugins/channel/telegram/stream_state.go: a delay that the service asks for is kept.
use maven.Base.{ℕ, none, some, List, [], ◌∷◌, ◌+◌, ◌≤◌, All}
use maven.Base.Text.{Text}
use maven.Telegram.Stream.{StreamState, Answer, done, refused, MadeRequest, Outcome}

-- The request was made when the cooldown was over; a delay asked for in its answer has been noted.
abbrev pub IsLate : ℕ → MadeRequest → Type 0
IsLate start m = start ≤ m.time

abbrev pub EndsBy : ℕ → ℕ → Answer → Type 0
EndsBy end time (done id) = Unit
EndsBy end time (refused none) = Unit
EndsBy end time (refused (some delay)) = time + delay ≤ end

abbrev pub IsNoted : ℕ → MadeRequest → Type 0
IsNoted end m = EndsBy end m.time m.answer

-- After an answer that asks for a delay, no request is made until it has passed.
abbrev pub Obeyed : ℕ → Answer → List MadeRequest → Type 0
Obeyed time (done id) later = Unit
Obeyed time (refused none) later = Unit
Obeyed time (refused (some delay)) later = All (IsLate (time + delay)) later

abbrev pub Obeys : List MadeRequest → Type 0
Obeys [] = Unit
Obeys (m ∷ made) = Obeyed m.time m.answer made × Obeys made

-- What holds of the requests between two cooldowns.
pub record Waited (start end : ℕ) (made : List MadeRequest) : Type 0 where
  pub grows : start ≤ end
  pub late : All (IsLate start) made
  pub noted : All (IsNoted end) made
  pub obeyed : Obeys made

abbrev pub Waits : StreamState → Outcome → Type 0
Waits s (t, made) = Waited s.cooldown_until t.cooldown_until made
