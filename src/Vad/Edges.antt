-- ===== src/Vad/Edges.antt =====
-- internal/kernel/voice/vad.go: edges change sides, and the loop uses up the buffer.
use maven.Base.{
  ℕ, zero, suc, Bool, true, false, List, [], ◌∷◌, ◌++◌, ◌≤◌, ◌<◌, ◌≡◌, refl, ◌∙◌, arith, leb,
  leb→le, inl, inr, Bool-cases, length, take, drop, length-drop, length-take, take-append-drop,
  append_assoc, concat, All, ap,
}
use maven.Vad.{
  Scoring, Edge, edge_none, speech_start, speech_stop, VadState, quiet, starting, speaking,
  stopping, Vad, Config, step_quiet, step_starting, step_speaking, step_stopping, step_state,
  process_frame, first_edge, push_loop, push,
}

-- Whether the detector counts as in speech.
abbrev pub in_speech : VadState → Bool
in_speech quiet = false
in_speech starting = false
in_speech speaking = true
in_speech stopping = true

-- What an edge says of the states before and after it.
abbrev pub Crosses : Edge → Bool → Bool → Type 0
Crosses edge_none before after = before ≡ after
Crosses speech_start before after = (before ≡ false) × (after ≡ true)
Crosses speech_stop before after = (before ≡ true) × (after ≡ false)

module _ {F : Type 0} where
  abbrev CrossesFrom : Vad F → Vad F × Edge → Type 0
  CrossesFrom v r = Crosses r.1 (in_speech v.state) (in_speech r.0.state)

  step-Crosses :
      (c : Config) (speaks energetic : Bool) (v : Vad F)
      → CrossesFrom v (step_state c speaks energetic v)
  unfolding step_state step_quiet step_starting step_speaking step_stopping
  step-Crosses c speaks energetic v = by_state v.state refl
    where
      by_state : (s : VadState) → v.state ≡ s → CrossesFrom v (step_state c speaks energetic v)
      by_state quiet e = ground arith
      by_state starting e = ground arith
      by_state speaking e = ground arith
      by_state stopping e = ground arith

  module _ (scoring : Scoring F) (c : Config) where
    -- A frame gives the start of speech exactly where the detector goes from no speech to speech,
    -- the stop exactly where it goes back, and no edge where it stays.
    pub process_frame-Crosses :
        (frame : List ℕ) (v : Vad F)
        → Crosses
            (process_frame scoring c frame v).1
            (in_speech v.state)
            (in_speech (process_frame scoring c frame v).0.state)
    unfolding process_frame
    process_frame-Crosses frame v =
        let raw = scoring.score frame in
        let smoothed = scoring.smooth v.smoothed raw in
        step-Crosses c (scoring.reaches smoothed) (scoring.reaches raw)
          (record v { smoothed = smoothed })

-- What the edge of a `Push` says: the first edge, so that the side before it is known.
abbrev pub Pushed : Bool → Edge → Bool → Type 0
Pushed before edge_none after = before ≡ after
Pushed before speech_start after = before ≡ false
Pushed before speech_stop after = before ≡ true

first_edge-Pushed :
    (b m a : Bool) (e e' : Edge) → Pushed b e m → Crosses e' m a → Pushed b (first_edge e e') a
first_edge-Pushed b m a edge_none edge_none p q = p ∙ q
first_edge-Pushed b m a edge_none speech_start p q = p ∙ q.0
first_edge-Pushed b m a edge_none speech_stop p q = p ∙ q.0
first_edge-Pushed b m a speech_start e' p q = p
first_edge-Pushed b m a speech_stop e' p q = p

module _ {F : Type 0} (scoring : Scoring F) (c : Config) where
  process_frame-buf : (frame : List ℕ) (v : Vad F) → (process_frame scoring c frame v).0.buf ≡ v.buf
  unfolding process_frame step_state step_quiet step_starting step_speaking step_stopping
  process_frame-buf frame v = by_state v.state refl
    where
      by_state : (s : VadState) → v.state ≡ s → (process_frame scoring c frame v).0.buf ≡ v.buf
      by_state quiet e = ground arith
      by_state starting e = ground arith
      by_state speaking e = ground arith
      by_state stopping e = ground arith

  push_loop-Pushed :
      (b : Bool) (fuel : ℕ) (e : Edge) (v : Vad F)
      → Pushed b e (in_speech v.state)
      → Pushed b (push_loop scoring c fuel e v).1 (in_speech (push_loop scoring c fuel e v).0.state)
  unfolding push_loop
  push_loop-Pushed b zero e v p = p
  push_loop-Pushed b (suc fuel) e v p = elim (Bool-cases (leb c.frame_bytes (length v.buf))) [
    | inr q ↦ rw q p
    | inl q ↦
        let w = record v { buf = drop c.frame_bytes v.buf } in
        let frame = take c.frame_bytes v.buf in
        rw q (
          push_loop-Pushed b fuel (first_edge e (process_frame scoring c frame w).1)
            (process_frame scoring c frame w).0
            (first_edge-Pushed b _ _ e _ p (process_frame-Crosses scoring c frame w)))
  ]

  -- The detector and the first edge after it has heard the frames in order.
  abbrev pub heard : List (List ℕ) → Vad F → Vad F × Edge
  heard [] v = (v, edge_none)
  heard (frame ∷ frames) v =
      let r = process_frame scoring c frame v in
      let s = heard frames r.0 in (s.0, first_edge r.1 s.1)

  -- What is made of the bytes `pcm` from the detector `v`: whole frames, each of which is heard, and
  -- the rest, which is shorter than a frame and is kept.
  pub record Consumed (pcm : List ℕ) (v : Vad F) (r : Vad F × Edge) : Type 0 where
    pub frames : List (List ℕ)
    pub rest : List ℕ
    pub split : concat frames ++ rest ≡ pcm
    pub whole : All (λ f. length f ≡ c.frame_bytes) frames
    pub partial : length rest < c.frame_bytes
    pub processed : r.0 ≡ record ((heard frames v).0) { buf = rest }
    pub first : r.1 ≡ (heard frames v).1

  step-buf :
      (speaks energetic : Bool) (v : Vad F) (b : List ℕ)
      → step_state c speaks energetic (record v { buf = b }) ≡ (
        record ((step_state c speaks energetic v).0) { buf = b },
        (step_state c speaks energetic v).1,
      )
  unfolding step_state step_quiet step_starting step_speaking step_stopping
  step-buf speaks energetic v b = by_state v.state refl
    where
      by_state :
          (s : VadState)
          → v.state ≡ s
          → step_state c speaks energetic (record v { buf = b }) ≡ (
            record ((step_state c speaks energetic v).0) { buf = b },
            (step_state c speaks energetic v).1,
          )
      by_state quiet e = ground arith
      by_state starting e = ground arith
      by_state speaking e = ground arith
      by_state stopping e = ground arith

  -- A frame is heard alike whatever the buffer holds.
  process_frame-any_buf :
      (frame : List ℕ) (v : Vad F) (b : List ℕ)
      → process_frame scoring c frame (record v { buf = b }) ≡ (
        record ((process_frame scoring c frame v).0) { buf = b },
        (process_frame scoring c frame v).1,
      )
  unfolding process_frame
  process_frame-any_buf frame v b =
      let raw = scoring.score frame in
      let smoothed = scoring.smooth v.smoothed raw in
      step-buf (scoring.reaches smoothed) (scoring.reaches raw) (record v { smoothed = smoothed }) b

  heard-any_buf :
      (frames : List (List ℕ)) (v : Vad F) (b rest : List ℕ)
      → (record ((heard frames (record v { buf = b })).0) { buf = rest }
          ≡ record ((heard frames v).0) { buf = rest })
        × ((heard frames (record v { buf = b })).1 ≡ (heard frames v).1)
  heard-any_buf [] v b rest = (refl, refl)
  heard-any_buf (frame ∷ frames) v b rest =
      let w = (process_frame scoring c frame v).0 in
      let e = (process_frame scoring c frame v).1 in
      let ih = heard-any_buf frames w b rest in
      let same = process_frame-any_buf frame v b in
      (
        ap (λ (r : Vad F × Edge). record ((heard frames r.0).0) { buf = rest }) same ∙ ih.0,
        ap (λ (r : Vad F × Edge). first_edge r.1 (heard frames r.0).1) same
            ∙ ap (first_edge e) ih.1,
      )

  first_edge_assoc : (d e f : Edge) → first_edge (first_edge d e) f ≡ first_edge d (first_edge e f)
  first_edge_assoc edge_none e f = refl
  first_edge_assoc speech_start e f = refl
  first_edge_assoc speech_stop e f = refl

  -- The loop, behind the edge so far.
  abbrev LoopConsumed : Edge → Vad F → Vad F × Edge → Type 0
  LoopConsumed e v r = (e' : Edge) × (r.1 ≡ first_edge e e') × Consumed v.buf v (r.0, e')

  first_edge_none : (e : Edge) → e ≡ first_edge e edge_none
  first_edge_none edge_none = refl
  first_edge_none speech_start = refl
  first_edge_none speech_stop = refl

  nothing_whole : (e : Edge) (v : Vad F) → length v.buf < c.frame_bytes → LoopConsumed e v (v, e)
  nothing_whole e v short = (
    edge_none,
    first_edge_none e,
    record {
      frames = [];
      rest = v.buf;
      split = refl;
      whole = tt;
      partial = short;
      processed = refl;
      first = refl;
    },
  )

  one_more :
      (e : Edge) (v : Vad F) (r : Vad F × Edge)
      → c.frame_bytes ≤ length v.buf
      → (let w = record v { buf = drop c.frame_bytes v.buf } in
          let p = process_frame scoring c (take c.frame_bytes v.buf) w in
          LoopConsumed (first_edge e p.1) p.0 r)
      → LoopConsumed e v r
  one_more e v r enough (e', q, k) =
      let b = drop c.frame_bytes v.buf in
      let frame = take c.frame_bytes v.buf in
      let w = record v { buf = b } in
      let p = process_frame scoring c frame w in
      let pv = process_frame scoring c frame v in
      let same = process_frame-any_buf frame v b in
      let tail = heard-any_buf k.frames pv.0 b k.rest in
      (
        first_edge p.1 e',
        q ∙ first_edge_assoc e p.1 e',
        record {
          frames = frame ∷ k.frames;
          rest = k.rest;
          split =
              append_assoc frame (concat k.frames) k.rest
              ∙ (ap (λ (t : List ℕ). frame ++ t) (k.split ∙ process_frame-buf frame w)
                  ∙ take-append-drop c.frame_bytes v.buf);
          whole = (omega (arith, length-take c.frame_bytes v.buf), k.whole);
          partial = k.partial;
          processed =
              k.processed
              ∙ (ap (λ (x : Vad F × Edge). record ((heard k.frames x.0).0) { buf = k.rest }) same
                  ∙ tail.0);
          first =
              ap (first_edge p.1) k.first
              ∙ (ap (λ (x : Vad F × Edge). first_edge x.1 (heard k.frames x.0).1) same
                  ∙ ap (first_edge pv.1) tail.1);
        },
      )

  push_loop-Consumed :
      (fuel : ℕ) (e : Edge) (v : Vad F)
      → 0 < c.frame_bytes
      → length v.buf ≤ fuel
      → LoopConsumed e v (push_loop scoring c fuel e v)
  unfolding push_loop
  push_loop-Consumed zero e v pos le = nothing_whole e v (omega arith)
  push_loop-Consumed (suc fuel) e v pos le = elim (Bool-cases (leb c.frame_bytes (length v.buf))) [
    | inr q ↦ rw q (nothing_whole e v (ground arith))
    | inl q ↦
        let w = record v { buf = drop c.frame_bytes v.buf } in
        let frame = take c.frame_bytes v.buf in
        let p = process_frame scoring c frame w in
        rw q (
          one_more e v (push_loop scoring c fuel (first_edge e p.1) p.0) (leb→le _ _ q) (
            push_loop-Consumed fuel (first_edge e p.1) p.0 pos (
              rw (process_frame-buf frame w)
                (omega (arith, length-drop c.frame_bytes v.buf, leb→le _ _ q)))))
  ]

  from_start :
      (pcm : List ℕ) (v : Vad F) (r : Vad F × Edge)
      → LoopConsumed edge_none (record v { buf = v.buf ++ pcm }) r
      → Consumed (v.buf ++ pcm) v r
  from_start pcm v r (e', q, k) =
      let any = heard-any_buf k.frames v (v.buf ++ pcm) k.rest in
      record {
        frames = k.frames;
        rest = k.rest;
        split = k.split;
        whole = k.whole;
        partial = k.partial;
        processed = k.processed ∙ any.0;
        first = q ∙ (k.first ∙ any.1);
      }

  -- With frames of at least one byte, a `Push` cuts the kept bytes and the new ones, in order, into
  -- whole frames and a rest that is shorter than a frame: the detector has heard each of the frames,
  -- the rest is kept, and the edge is the first that a frame gave. Without an edge the detector is on
  -- the side where it was; the start of speech is only given by a detector that was not in speech,
  -- and the stop only by one that was.
  pub push-Pushed :
      (pcm : List ℕ) (v : Vad F)
      → 0 < c.frame_bytes
      → Consumed (v.buf ++ pcm) v (push scoring c pcm v)
        × Pushed
            (in_speech v.state)
            (push scoring c pcm v).1
            (in_speech (push scoring c pcm v).0.state)
  unfolding push
  push-Pushed pcm v pos =
      let start = record v { buf = v.buf ++ pcm } in
      let loop = push_loop-Consumed (length (v.buf ++ pcm)) edge_none start pos (omega arith) in
      (
        from_start pcm v _ loop,
        push_loop-Pushed (in_speech v.state) (length (v.buf ++ pcm)) edge_none start refl,
      )
