-- ===== src/Voice/Samples.antt =====
-- internal/kernel/voice/transforms.go: the samples of speech, as bytes of which two are a sample.
-- The speech service is a parameter.
pub mod Aligned
use maven.Base.{
  ℕ, Bool, List, [], ◌∷◌, ◌++◌, ◌==◌, ◌%◌, ◌-◌, Option, none, some, if◌then◌else◌, is_empty, length,
  take, drop,
}
use maven.Base.Result.{Result, ok, err}
use maven.Base.Text.{Text, trim_space}

abbrev pub Bytes : Type 0
Bytes = List ℕ

-- The whole samples of a chunk, and the byte that waits for its other half.
unfoldable pub split_odd : Bytes → Bytes × Bytes
split_odd chunk =
    if length chunk % 2 == 0
    then (chunk, [])
    else (take (length chunk - 1) chunk, drop (length chunk - 1) chunk)

-- `emitAlignedPCM`, with the byte that is pending.
unfoldable pub emit_aligned_pcm : Bytes → List Bytes → List Bytes
unfolding split_odd
emit_aligned_pcm pending [] = []
emit_aligned_pcm pending (chunk ∷ chunks) =
    let skipped = emit_aligned_pcm pending chunks in
    let split = split_odd (pending ++ chunk) in
    let rest = emit_aligned_pcm split.1 chunks in
    if is_empty chunk then skipped else if is_empty split.0 then rest else split.0 ∷ rest

-- An error of the speech service.
pub record SpeechError : Type 0 where
  pub is_canceled : Bool

abbrev pub kept_error : SpeechError → Option SpeechError
kept_error e = if e.is_canceled then none else some e

module _ (tts : Text → Result SpeechError (List Bytes)) where
  -- `Synthesize`: the chunks of all sentences, and the error that ends it. The chunks of a sentence
  -- come in whole.
  unfoldable pub synthesize : List Text → List Bytes × Option SpeechError
  unfolding trim_space emit_aligned_pcm
  synthesize [] = ([], none)
  synthesize (sentence ∷ sentences) =
      let rest = synthesize sentences in
      if is_empty (trim_space sentence) then rest else elim (tts (trim_space sentence)) [
        | err e ↦ ([], kept_error e)
        | ok chunks ↦ (emit_aligned_pcm [] chunks ++ rest.0, rest.1)
      ]
