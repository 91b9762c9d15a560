-- ===== src/Pipeline/Reload/Drained.antt =====
-- internal/kernel/pipeline/pipeline.go: a reload waits for the turns.
use maven.Base.{
  Option, none, some, List, [], ◌∷◌, ◌++◌, ◌≡◌, ◌≢◌, sym, ap, subst, arith, All, All-append,
}
use maven.Pipeline.Reload.{
  Runtimes, old_of, with_runtime, RuntimeStep, begin_turn, end_turn, run_stream, end_stream, reload,
  close_old, take_runtime_for_shutdown, Reloads, at_start, and_then,
}

module _ {R : Type 0} where
  abbrev pub AllOther : List R → R → Type 0
  AllOther rs r = All (λ x. x ≢ r) rs

  -- The turns have the current runtime, which is neither closed nor about to be.
  record IsDrained (s : Runtimes R) : Type 0 where
    are_current : All (λ r. s.rt ≡ some r) s.turns
    not_closing : (r : R) → s.rt ≡ some r → AllOther s.closing r
    not_closed : (r : R) → s.rt ≡ some r → AllOther s.closed r

  All-without :
      (P : R → Type 0) (before : List R) (r : R) (after : List R)
      → All P (before ++ r ∷ after)
      → All P (before ++ after) × P r
  All-without P [] r after (p, ps) = (ps, p)
  All-without P (b ∷ before) r after (p, ps) =
      let (q, x) = All-without P before r after ps in ((p, q), x)

  old-AllOther : (o : Option R) (new : R) → o ≢ some new → AllOther (old_of o) new
  old-AllOther none new n = tt
  old-AllOther (some r) new n = ((λ e. n (ap some e)), tt)

  some-eq : (a b : R) → some a ≡ some b → a ≡ b
  some-eq a b e = ground arith

  step-IsDrained : {s t : Runtimes R} → IsDrained s → RuntimeStep s t → IsDrained t
  step-IsDrained {s} i (begin_turn r e) = record {
    are_current = (e, i.are_current);
    not_closing = i.not_closing;
    not_closed = i.not_closed;
  }
  step-IsDrained {s} i (end_turn r before after e) = record {
    are_current =
        (All-without (λ x. s.rt ≡ some x) before r after
          (subst (All (λ x. s.rt ≡ some x)) e i.are_current)).0;
    not_closing = i.not_closing;
    not_closed = i.not_closed;
  }
  step-IsDrained {s} i (run_stream r e) = record {
    are_current = i.are_current;
    not_closing = i.not_closing;
    not_closed = i.not_closed;
  }
  step-IsDrained {s} i (end_stream r before after e) = record {
    are_current = i.are_current;
    not_closing = i.not_closing;
    not_closed = i.not_closed;
  }
  step-IsDrained {s} i (reload new fresh e) = record {
    are_current = subst (All (λ x. some new ≡ some x)) (sym e) tt;
    not_closing = λ r q. subst (AllOther (old_of s.rt ++ s.closing)) (some-eq new r q) (
        All-append (λ x. x ≢ new) (old_of s.rt) s.closing (old-AllOther s.rt new fresh.not_current)
          fresh.not_closing);
    not_closed = λ r q. subst (AllOther s.closed) (some-eq new r q) fresh.not_closed;
  }
  step-IsDrained {s} i (close_old r before after e) = record {
    are_current = i.are_current;
    not_closing = λ x q.
        (All-without (λ y. y ≢ x) before r after
          (subst (λ rs. AllOther rs x) e (i.not_closing x q))).0;
    not_closed = λ x q. (
      (All-without (λ y. y ≢ x) before r after
          (subst (λ rs. AllOther rs x) e (i.not_closing x q))).1,
      i.not_closed x q,
    );
  }
  step-IsDrained {s} i (take_runtime_for_shutdown e) = record {
    are_current = subst (All (λ x. none ≡ some x)) (sym e) tt;
    not_closing = λ r q. absurd (ground arith);
    not_closed = λ r q. absurd (ground arith);
  }

  run-IsDrained : (first : R) (s : Runtimes R) → Reloads (with_runtime first) s → IsDrained s
  run-IsDrained first s at_start = record {
    are_current = tt;
    not_closing = λ r q. tt;
    not_closed = λ r q. tt;
  }
  run-IsDrained first s (and_then r st) = step-IsDrained (run-IsDrained first _ r) st

  using-All :
      (s : Runtimes R) (turns : List R)
      → IsDrained s
      → All (λ r. s.rt ≡ some r) turns
      → All (λ r. AllOther s.closing r × AllOther s.closed r) turns
  using-All s [] i t = tt
  using-All s (r ∷ turns) i (e, es) =
      ((i.not_closing r e, i.not_closed r e), using-All s turns i es)

  -- However the turns that hold the turn lock, reloads and the shutdown interleave, if each reload
  -- brings a new runtime, then no such turn in progress has a runtime that has been closed or is
  -- about to be. The streams that `RunStream` has returned hold no lock and are not among the turns.
  pub turns_keep_runtime :
      (first : R) (s : Runtimes R)
      → Reloads (with_runtime first) s
      → All (λ r. AllOther s.closing r × AllOther s.closed r) s.turns
  turns_keep_runtime first s r =
      let i = run-IsDrained first s r in using-All s s.turns i i.are_current
