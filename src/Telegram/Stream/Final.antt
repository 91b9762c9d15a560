-- ===== src/Telegram/Stream/Final.antt =====
-- internal/plugins/channel/telegram/stream.go and stream_state.go: the delay in an error of the
-- service, and the message that stands at the end of a stream. Delays are in whole milliseconds,
-- and 0 stands for one that is not positive.
use maven.Base.{
  ℕ, Bool, true, false, not, ◌&&◌, ◌||◌, Option, none, some, List, [], ◌∷◌, ◌++◌, ◌==◌, ◌*◌, ◌/◌,
  ◌%◌, ltb, leb, if◌then◌else◌, is_empty,
}
use maven.Base.Decimal.{value_from, is_below}
use maven.Base.Text.{Text, codes, strip_prefix}
use maven.Telegram.Stream.{StreamState, StreamMsg, set_cooldown}
use maven.Telegram.Stream.Events.{final_text}

-- An error: the seconds of an API error of too many requests, and its text.
pub record SendError : Type 0 where
  pub too_many_requests : Option ℕ
  pub text : Text

-- The text behind the last place of a marker: `strings.LastIndex` with the slice behind it.
unfoldable pub behind_last : Text → Text → Option Text
unfolding strip_prefix
behind_last marker [] = strip_prefix marker []
behind_last marker (c ∷ s) = elim (behind_last marker s) [
  | some rest ↦ some rest
  | none ↦ strip_prefix marker (c ∷ s)
]

abbrev pub is_digit_char : ℕ → Bool
is_digit_char c = leb b'0' c && leb c b'9'

unfoldable pub leading_digits : Text → Text
leading_digits [] = []
leading_digits (c ∷ s) = let rest = leading_digits s in if is_digit_char c then c ∷ rest else []

-- `time.Duration(secs) * time.Second`, which wraps in 64 bits of nanoseconds, in milliseconds.
unfoldable pub delay_of_seconds : ℕ → ℕ
delay_of_seconds secs =
    let ns = secs * 1000000000 % 18446744073709551616 in
    if ltb ns 9223372036854775808 then ns / 1000000 else 0

abbrev pub delay_of : Option ℕ → Option ℕ
delay_of none = none
delay_of (some n) = some (delay_of_seconds n)

unfoldable pub delay_in_text : Text → Option ℕ
unfolding behind_last leading_digits value_from is_below delay_of_seconds
delay_in_text text = elim (behind_last (codes "retry after ") text) [
  | none ↦ none
  | some rest ↦
      let digits = leading_digits rest in
      if is_empty digits || not (is_below 9223372036854775807 digits)
      then none
      else delay_of (value_from 0 digits)
]

-- `telegramRetryAfter`.
unfoldable pub telegram_retry_after : SendError → Option ℕ
unfolding delay_in_text delay_of_seconds
telegram_retry_after e = elim e.too_many_requests [
  | none ↦ delay_in_text e.text
  | some n ↦ if ltb 0 n then some (delay_of_seconds n) else delay_in_text e.text
]

-- What `finalizeSend` does: it waits until a time, sends the text, deletes a message.
pub data FinalAction : Type 0 where
  waited : ℕ → FinalAction
  sent_final : Text → FinalAction
  deleted_message : ℕ → FinalAction

-- What it reads: the times of its waits, whether the context ends in them, and the errors of both
-- sends.
pub record Sending : Type 0 where
  pub first_time : ℕ
  pub second_time : ℕ
  pub first_cancelled : Bool
  pub second_cancelled : Bool
  pub first_error : Option SendError
  pub second_error : Option SendError

-- `waitCooldown`; none is the error of the context.
unfoldable pub wait_cooldown : ℕ → Bool → StreamState → Option (List FinalAction)
wait_cooldown now cancelled s =
    if s.cooldown_until == 0 || leb s.cooldown_until now
    then some []
    else if cancelled
    then none
    else some (waited s.cooldown_until ∷ [])

abbrev pub delete_if_sent : StreamMsg → List FinalAction
delete_if_sent m = if m.id == 0 then [] else deleted_message m.id ∷ []

abbrev pub deletions : StreamState → List FinalAction
deletions s = delete_if_sent s.status_msg ++ delete_if_sent s.content_msg

-- The second send, behind a delay.
unfoldable pub send_again : Sending → StreamState → List FinalAction × Bool
unfolding wait_cooldown final_text
send_again w s = elim (wait_cooldown w.second_time w.second_cancelled s) [
  | none ↦ ([], false)
  | some waits ↦ elim w.second_error [
    | some e ↦ (waits ++ sent_final (final_text s) ∷ [], false)
    | none ↦ (waits ++ sent_final (final_text s) ∷ deletions s, true)
  ]
]

abbrev pub after_first : Sending → StreamState → SendError → List FinalAction × Bool
after_first w s e = elim (telegram_retry_after e) [
  | none ↦ ([], false)
  | some delay ↦ send_again w (set_cooldown w.second_time (some delay) s)
]

-- `finalizeSend`: what it does, and whether it gives no error.
unfoldable pub finalize_send : Sending → StreamState → List FinalAction × Bool
unfolding wait_cooldown final_text telegram_retry_after set_cooldown send_again
finalize_send w s = elim (wait_cooldown w.first_time w.first_cancelled s) [
  | none ↦ ([], false)
  | some waits ↦ elim w.first_error [
    | none ↦ (waits ++ sent_final (final_text s) ∷ deletions s, true)
    | some e ↦ let rest = after_first w s e in (waits ++ sent_final (final_text s) ∷ rest.0, rest.1)
  ]
]
