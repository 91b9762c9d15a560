-- ===== src/Vad.antt =====
-- internal/kernel/voice/vad.go: the voice activity detector. The floating-point numbers are a
-- parameter: how a frame is scored and smoothed, and whether a score reaches the threshold. A frame
-- is a list of bytes; the counts are small and do not wrap.
pub mod Edges
pub mod Tests
use maven.Base.{
  ℕ, zero, suc, Bool, true, false, not, List, [], ◌∷◌, ◌++◌, ◌+◌, ◌*◌, ◌/◌, ltb, leb, ◌==◌,
  if◌then◌else◌, length, take, drop,
}

-- `Detector`, with the arithmetic of `processFrame` on its scores.
pub record Scoring (F : Type 0) : Type 0 where
  pub score : List ℕ → F
  -- `smoothed + smoothing * (raw - smoothed)`.
  pub smooth : F → F → F
  -- `score >= threshold`.
  pub reaches : F → Bool

pub data Edge : Type 0 where
  edge_none speech_start speech_stop : Edge

pub data VadState : Type 0 where
  quiet starting speaking stopping : VadState

-- The fields of `VAD` that a run changes.
pub record Vad (F : Type 0) : Type 0 where
  pub buf : List ℕ
  pub smoothed : F
  pub state : VadState
  pub start_count : ℕ
  pub stop_count : ℕ

-- The fields that configure it, after their defaults: the bytes of a frame and the frames of the
-- holds.
pub record Config : Type 0 where
  pub frame_bytes : ℕ
  pub start_frames : ℕ
  pub stop_frames : ℕ

-- `sampleRate`, `frameMS` and `frameBytes`.
unfoldable pub frame_bytes_of : ℕ → ℕ → ℕ
frame_bytes_of sample_rate frame_ms =
    let rate = if sample_rate == 0 then 16000 else sample_rate in
    let ms = if frame_ms == 0 then 20 else frame_ms in rate * ms / 1000 * 2

-- The first edge wins.
abbrev pub first_edge : Edge → Edge → Edge
first_edge edge_none e = e
first_edge speech_start e = speech_start
first_edge speech_stop e = speech_stop

module _ {F : Type 0} where
  -- The cases of `processFrame`, by the state.
  unfoldable pub step_quiet : Bool → Vad F → Vad F × Edge
  step_quiet speaks v =
      if speaks then (record v { state = starting; start_count = 1 }, edge_none) else (v, edge_none)

  unfoldable pub step_starting : ℕ → Bool → Bool → Vad F → Vad F × Edge
  step_starting start_frames speaks energetic v =
      if not speaks
      then (record v { state = quiet; start_count = 0 }, edge_none)
      else if energetic
      then (if leb start_frames (v.start_count + 1)
          then (record v { state = speaking; start_count = 0 }, speech_start)
          else (record v { start_count = v.start_count + 1 }, edge_none))
      else (v, edge_none)

  unfoldable pub step_speaking : Bool → Vad F → Vad F × Edge
  step_speaking speaks v =
      if speaks then (v, edge_none) else (record v { state = stopping; stop_count = 1 }, edge_none)

  unfoldable pub step_stopping : ℕ → Bool → Vad F → Vad F × Edge
  step_stopping stop_frames speaks v =
      if speaks
      then (record v { state = speaking; stop_count = 0 }, edge_none)
      else if leb stop_frames (v.stop_count + 1)
      then (record v { state = quiet; stop_count = 0 }, speech_stop)
      else (record v { stop_count = v.stop_count + 1 }, edge_none)

  unfoldable pub step_state : Config → Bool → Bool → Vad F → Vad F × Edge
  step_state c speaks energetic v = elim v.state [
    | quiet ↦ step_quiet speaks v
    | starting ↦ step_starting c.start_frames speaks energetic v
    | speaking ↦ step_speaking speaks v
    | stopping ↦ step_stopping c.stop_frames speaks v
  ]

  module _ (scoring : Scoring F) (c : Config) where
    -- `processFrame`.
    unfoldable pub process_frame : List ℕ → Vad F → Vad F × Edge
    unfolding step_state step_quiet step_starting step_speaking step_stopping
    process_frame frame v =
        let raw = scoring.score frame in
        let smoothed = scoring.smooth v.smoothed raw in
        step_state c (scoring.reaches smoothed) (scoring.reaches raw)
          (record v { smoothed = smoothed })

    -- The loop of `Push`, with the edge so far. The fuel is at least the length of the buffer.
    unfoldable pub push_loop : ℕ → Edge → Vad F → Vad F × Edge
    push_loop zero edge v = (v, edge)
    push_loop (suc fuel) edge v =
        let frame = take c.frame_bytes v.buf in
        let r = process_frame frame (record v { buf = drop c.frame_bytes v.buf }) in
        let rest = push_loop fuel (first_edge edge r.1) r.0 in
        if leb c.frame_bytes (length v.buf) then rest else (v, edge)

    -- `Push`.
    unfoldable pub push : List ℕ → Vad F → Vad F × Edge
    unfolding push_loop process_frame
    push pcm v = let buf = v.buf ++ pcm in push_loop (length buf) edge_none (record v { buf = buf })
