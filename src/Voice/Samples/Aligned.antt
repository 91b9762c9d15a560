-- ===== src/Voice/Samples/Aligned.antt =====
-- internal/kernel/voice/transforms.go: chunks of whole samples.
use Prim.Native.Nat.{min}
use maven.Base.{
  ℕ, true, false, List, [], ◌∷◌, ◌++◌, ◌==◌, ◌%◌, ◌-◌, ◌≤◌, ◌≡◌, refl, sym, ap, ◌∙◌, subst, arith,
  inl, inr, Bool-cases, ==_iff, All, All-append, append_assoc, append-nil, concat, is_empty, length,
  take-append-drop, length-drop, length-take,
}
use maven.Base.Result.{Result, Result-cases}
use maven.Base.Text.{Text, trim_space}
use maven.Voice.Samples.{Bytes, split_odd, emit_aligned_pcm, SpeechError, synthesize}

-- A chunk of whole samples, at least one.
abbrev pub IsAligned : Bytes → Type 0
IsAligned c = (length c % 2 ≡ 0) × (is_empty c ≡ false)

abbrev Halves : Bytes → Bytes × Bytes → Type 0
Halves c p = (p.0 ++ p.1 ≡ c) × (length p.0 % 2 ≡ 0) × (length p.1 ≤ 1)

before_odd : (n : ℕ) → (n % 2 == 0) ≡ false → min (n - 1) n % 2 ≡ 0
before_odd n h = ground arith

nothing : (x y : Bytes) → is_empty x ≡ true → x ++ y ≡ y
nothing [] y e = refl
nothing (c ∷ x) y e = absurd (ground arith)

split_odd-Halves : (c : Bytes) → Halves c (split_odd c)
unfolding split_odd
split_odd-Halves c = elim (Bool-cases (length c % 2 == 0)) [
  | inl e ↦ rw (split_odd, e) (append-nil c, (==_iff _ _).0 e, omega arith)
  | inr e ↦
      rw (split_odd, e)
        (
          take-append-drop (length c - 1) c,
          rw (length-take (length c - 1) c) (before_odd (length c) e),
          rw (length-drop (length c - 1) c) (omega arith),
        )
]

-- What a stream of chunks makes of the bytes that came in.
pub record Emitted (bytes : Bytes) (out : List Bytes) : Type 0 where
  pub aligned : All IsAligned out
  pub tail : Bytes
  pub short : length tail ≤ 1
  pub complete : concat out ++ tail ≡ bytes

emit-Emitted :
    (pending : Bytes) (chunks : List Bytes)
    → length pending ≤ 1
    → Emitted (pending ++ concat chunks) (emit_aligned_pcm pending chunks)
unfolding emit_aligned_pcm
emit-Emitted pending [] h = record {
  aligned = tt;
  tail = pending;
  short = h;
  complete = sym (append-nil pending);
}
emit-Emitted pending ([] ∷ chunks) h = emit-Emitted pending chunks h
emit-Emitted pending ((b ∷ chunk) ∷ chunks) h =
    let c = pending ++ b ∷ chunk in
    let p = split_odd c in
    let (q, even, short) = split_odd-Halves c in
    let r = emit-Emitted p.1 chunks short in
    let whole : p.0 ++ (p.1 ++ concat chunks) ≡ pending ++ ((b ∷ chunk) ++ concat chunks) =
      sym (append_assoc p.0 p.1 (concat chunks))
      ∙ (ap (λ (x : Bytes). x ++ concat chunks) q
          ∙ append_assoc pending (b ∷ chunk) (concat chunks)) in
    elim (Bool-cases (is_empty p.0)) [
      | inl e ↦ rw e (
          subst (λ (bytes : Bytes). Emitted bytes (emit_aligned_pcm p.1 chunks))
            (sym (nothing p.0 (p.1 ++ concat chunks) e) ∙ whole) r)
      | inr e ↦ rw e (record {
        aligned = ((even, e), r.aligned);
        tail = r.tail;
        short = r.short;
        complete =
            append_assoc p.0 (concat (emit_aligned_pcm p.1 chunks)) r.tail
            ∙ (ap (λ (x : Bytes). p.0 ++ x) r.complete ∙ whole);
      })
    ]

-- The chunks that are given out hold whole samples, at least one each, and together they are the
-- bytes that came in, in order, but for a last byte that has no other half.
pub emit_aligned_pcm-Emitted :
    (chunks : List Bytes) → Emitted (concat chunks) (emit_aligned_pcm [] chunks)
emit_aligned_pcm-Emitted chunks = emit-Emitted [] chunks (omega arith)

-- `Synthesize` gives out whole samples only, whatever the speech service answers.
synthesize-AllAligned :
    (tts : Text → Result SpeechError (List Bytes)) (sentences : List Text)
    → All IsAligned (synthesize tts sentences).0
unfolding synthesize
synthesize-AllAligned tts [] = tt
synthesize-AllAligned tts (sentence ∷ sentences) =
    elim (Bool-cases (is_empty (trim_space sentence))) [
      | inl e ↦ rw e (synthesize-AllAligned tts sentences)
      | inr e ↦ elim (Result-cases (tts (trim_space sentence))) [
        | inl (f, q) ↦ rw (e, q) tt
        | inr (chunks, q) ↦
            rw (e, q)
              (All-append IsAligned (emit_aligned_pcm [] chunks) (synthesize tts sentences).0
                (emit_aligned_pcm-Emitted chunks).aligned (synthesize-AllAligned tts sentences))
      ]
    ]
