-- ===== src/Voice/Tests.antt =====
-- Runs of internal/kernel/voice, and its theorems at them.
use maven.Base.{ℕ, none, some, List, [], ◌∷◌, ◌≡◌, refl, concat}
use maven.Base.Text.{Text, codes}
use maven.Base.Unicode.{ascii_only}
use maven.Voice.Sentences.{take_complete_sentences, sentencize}
use maven.Voice.Sentences.Spoken.{Spoken, sentencize-Spoken}
use maven.Voice.Wake.{
  normalize_wake, match_wake, utterance, speech_start, dormant, Happening, heard, reply_done, hears,
  extends, Listens, at_rest, goes_on, gate_step, after_reply, SpeechEvent,
}
use maven.Voice.Wake.Asleep.{asleep_hears_nothing}
use maven.Voice.Samples.{emit_aligned_pcm}

takes_two :
    take_complete_sentences (codes "It is 3.14. Yes! And")
    ≡ (codes "It is 3.14." ∷ codes "Yes!" ∷ [], codes " And")
unfolding take_complete_sentences
takes_two = refl

speaks :
    sentencize (codes "One. T" ∷ codes "wo? thr" ∷ codes "ee " ∷ [])
    ≡ codes "One." ∷ codes "Two?" ∷ codes "three" ∷ []
unfolding sentencize
speaks = refl

sentencize-Spoken_example :
    Spoken
      (concat (codes "One. T" ∷ codes "wo" ∷ []))
      (sentencize (codes "One. T" ∷ codes "wo" ∷ []))
sentencize-Spoken_example = sentencize-Spoken (codes "One. T" ∷ codes "wo" ∷ [])

abbrev phrase : Text
phrase = codes "hey maven"

normalizes : normalize_wake ascii_only (codes " Hey, -  Maven. ") ≡ phrase
unfolding normalize_wake
normalizes = refl

matches : match_wake ascii_only (codes "Hey Maven, email Bob") phrase ≡ some (codes "email Bob")
unfolding match_wake
matches = refl

-- A token of punctuation only stands in the way of the phrase.
stray_token : match_wake ascii_only (codes "Hey - Maven") phrase ≡ none
unfolding match_wake
stray_token = refl

-- Someone talks, but not to the gate.
abbrev talk : List Happening
talk = heard (utterance (codes "good morning")) ∷ heard speech_start ∷ reply_done ∷ []

abbrev silence : List SpeechEvent
silence = []

overheard : Listens ascii_only phrase dormant talk silence dormant
unfolding match_wake gate_step after_reply
overheard =
    goes_on (goes_on (goes_on at_rest extends) (hears speech_start))
      (hears (utterance (codes "good morning")))

asleep_hears_nothing_example : (silence ≡ []) × (dormant ≡ dormant)
asleep_hears_nothing_example =
    asleep_hears_nothing ascii_only phrase talk silence dormant overheard
      (unmatched, (tt, (tt, tt)))
  where
    unmatched : match_wake ascii_only (codes "good morning") phrase ≡ none
    unmatched = unfold match_wake in refl

abbrev chunks : List (List ℕ)
chunks = (1 ∷ []) ∷ [] ∷ (2 ∷ 3 ∷ []) ∷ (4 ∷ 5 ∷ []) ∷ []

aligns : emit_aligned_pcm [] chunks ≡ (1 ∷ 2 ∷ []) ∷ (3 ∷ 4 ∷ []) ∷ []
unfolding emit_aligned_pcm
aligns = refl
