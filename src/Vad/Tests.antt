-- ===== src/Vad/Tests.antt =====
-- A run of internal/kernel/voice/vad.go with scores that are whole numbers, and its theorems at it.
use maven.Base.{ℕ, false, [], ◌∷◌, ◌≡◌, refl, arith, leb}
use maven.Vad.{Scoring, speech_start, quiet, Vad, Config, process_frame, push, frame_bytes_of}
use maven.Vad.Edges.{Consumed, in_speech, Crosses, process_frame-Crosses, Pushed, push-Pushed}

-- A frame's score is its first byte, which nothing smooths.
abbrev scoring : Scoring ℕ
scoring = record {
  score = λ frame. elim frame [ [] ↦ 0 | c ∷ rest ↦ c ];
  smooth = λ old raw. raw;
  reaches = λ f. leb 5 f;
}

abbrev config : Config
config = record { frame_bytes = 2; start_frames = 2; stop_frames = 2 }

abbrev detector : Vad ℕ
detector = record { buf = []; smoothed = 0; state = quiet; start_count = 0; stop_count = 0 }

default_frame : frame_bytes_of 0 0 ≡ 640
unfolding frame_bytes_of
default_frame = refl

starts : (push scoring config (9 ∷ 0 ∷ 9 ∷ 0 ∷ 9 ∷ []) detector).1 ≡ speech_start
unfolding push
starts = refl

-- One `Push` with a whole utterance reports its start only.
keeps_first : (push scoring config (9 ∷ 0 ∷ 9 ∷ 0 ∷ 1 ∷ 0 ∷ 1 ∷ 0 ∷ []) detector).1 ≡ speech_start
unfolding push
keeps_first = refl

process_frame-Crosses_example :
    Crosses
      (process_frame scoring config (9 ∷ 0 ∷ []) detector).1
      false
      (in_speech (process_frame scoring config (9 ∷ 0 ∷ []) detector).0.state)
process_frame-Crosses_example = process_frame-Crosses scoring config (9 ∷ 0 ∷ []) detector

push-Pushed_example :
    Consumed scoring config
      (9 ∷ 0 ∷ 9 ∷ [])
      detector
      (push scoring config (9 ∷ 0 ∷ 9 ∷ []) detector)
    × Pushed false
        (push scoring config (9 ∷ 0 ∷ 9 ∷ []) detector).1
        (in_speech (push scoring config (9 ∷ 0 ∷ 9 ∷ []) detector).0.state)
push-Pushed_example = push-Pushed scoring config (9 ∷ 0 ∷ 9 ∷ []) detector (omega arith)
