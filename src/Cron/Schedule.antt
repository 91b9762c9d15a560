-- ===== src/Cron/Schedule.antt =====
-- internal/plugins/trigger/cron/schedule.go. Instants are milliseconds since 1970, which the code
-- takes them to by `UnixMilli`; an interval is in nanoseconds, and 0 stands for one that is not
-- positive. The cron expressions are those of package gronx, a parameter.
use maven.Base.{
  ℕ, ◌+◌, ◌*◌, ◌/◌, ◌%◌, ◌≤◌, ◌<◌, ◌≡◌, refl, Bool, true, false, not, Option, none, some, [], ap,
  arith, leb, ltb, ◌==◌, if◌then◌else◌, is_empty, Option-cases, inl, inr,
}
use maven.Base.Text.{Text, codes, trim_space, text_eq}

-- Package gronx: `gronx.IsValid`, and `gronx.NextTickAfter(expr, after, false)`, none for an error.
pub record Gronx : Type 0 where
  pub is_valid : Text → Bool
  pub next_tick : Text → ℕ → Option ℕ

-- The next tick lies behind the reference time.
abbrev pub TicksLater : Gronx → Type 0
TicksLater g = (expr : Text) (after n : ℕ) → g.next_tick expr after ≡ some n → after < n

-- `CronSchedule`, `EverySchedule` and `AtSchedule`; none for the zero `time.Time`.
pub data Schedule : Type 0 where
  cron : Text → Schedule
  every : ℕ → Schedule
  at : Option ℕ → Schedule

abbrev pub ns_per_ms : ℕ
ns_per_ms = 1000000

module _ (g : Gronx) where
  -- `Next`: none for an error, `some none` for the zero time.
  unfoldable pub next : Schedule → ℕ → Option (Option ℕ)
  next (cron expr) after = elim (g.next_tick expr after) [ none ↦ none | some n ↦ some (some n) ]
  next (every interval) after =
      if interval == 0 then some none else some (some ((after * ns_per_ms + interval) / ns_per_ms))
  next (at none) after = some none
  next (at (some ms)) after = if leb after ms then some (some ms) else some none

  -- `computeNextScheduleRun`: none for an error, 0 if there is no further run.
  unfoldable pub compute_next_schedule_run : Schedule → ℕ → Option ℕ
  unfolding next
  compute_next_schedule_run sch from_ms = elim (next sch from_ms) [
    | none ↦ none
    | some none ↦ some 0
    | some (some n) ↦ some n
  ]

  -- `Validate`: whether it gives no error.
  unfoldable pub validate : Schedule → Bool
  unfolding trim_space
  validate (cron expr) = if is_empty (trim_space expr) then false else g.is_valid (trim_space expr)
  validate (every interval) = not (interval == 0)
  validate (at none) = false
  validate (at (some ms)) = true

-- `IsAtSchedule`.
unfoldable pub is_at_schedule : Schedule → Bool
is_at_schedule (cron expr) = false
is_at_schedule (every interval) = false
is_at_schedule (at t) = true

-- `time.Duration(ms) * time.Millisecond` on the 64 bits of an int64, in nanoseconds; 0 stands for a
-- result that is not positive.
unfoldable pub duration_of_ms : ℕ → ℕ
duration_of_ms ms =
    let ns = ms * ns_per_ms % 18446744073709551616 in if ltb ns 9223372036854775808 then ns else 0

-- `scheduleJSON`; `every_ms` is the 64 bits of its int64, and `at_ms` is none for the instant that the zero time has.
pub record ScheduleJson : Type 0 where
  pub kind : Text
  pub expr : Text
  pub every_ms : ℕ
  pub at_ms : Option ℕ

-- `marshalSchedule`, without the JSON text.
unfoldable pub marshal_schedule : Schedule → ScheduleJson
marshal_schedule (cron e) = record { kind = codes "cron"; expr = e; every_ms = 0; at_ms = some 0 }
marshal_schedule (every interval) = record {
  kind = codes "every";
  expr = [];
  every_ms = interval / ns_per_ms;
  at_ms = some 0;
}
marshal_schedule (at t) = record { kind = codes "at"; expr = []; every_ms = 0; at_ms = t }

-- `unmarshalSchedule`; none for an unknown kind.
unfoldable pub unmarshal_schedule : ScheduleJson → Option Schedule
unfolding text_eq duration_of_ms
unmarshal_schedule raw =
    if text_eq raw.kind (codes "cron")
    then some (cron raw.expr)
    else if text_eq raw.kind (codes "every")
    then some (every (duration_of_ms raw.every_ms))
    else if text_eq raw.kind (codes "at")
    then some (at raw.at_ms)
    else none

-- What is read back: an interval from its whole milliseconds.
unfoldable pub reread : Schedule → Schedule
reread (every interval) = every (duration_of_ms (interval / ns_per_ms))
reread sch = sch

-- What the JSON form keeps: all but the part of an interval below a millisecond.
unfoldable pub whole_ms : Schedule → Schedule
whole_ms (every interval) = every (interval / ns_per_ms * ns_per_ms)
whole_ms sch = sch

-- Every schedule is read back from its JSON form.
pub unmarshal-marshal :
    (sch : Schedule) → unmarshal_schedule (marshal_schedule sch) ≡ some (reread sch)
unfolding unmarshal_schedule marshal_schedule reread
unmarshal-marshal (cron e) = refl
unmarshal-marshal (every interval) = refl
unmarshal-marshal (at t) = refl

-- An interval that is a `time.Duration`.
abbrev pub IsDuration : Schedule → Type 0
IsDuration (cron e) = Unit
IsDuration (every interval) = interval < 9223372036854775808
IsDuration (at t) = Unit

pub duration_exact : (ms : ℕ) → ms ≤ 9223372036854 → duration_of_ms ms ≡ ms * ns_per_ms
unfolding duration_of_ms
duration_exact ms h = ground arith

pub reread-whole : (sch : Schedule) → IsDuration sch → reread sch ≡ whole_ms sch
unfolding reread whole_ms
reread-whole (cron e) h = refl
reread-whole (every interval) h = ap every (duration_exact (interval / ns_per_ms) (omega arith))
reread-whole (at t) h = refl

-- An interval below a millisecond, which `Validate` accepts, is refused after it was stored.
pub validate-short_interval :
    (g : Gronx) (interval : ℕ)
    → 0 < interval
    → interval < ns_per_ms
    → (validate g (every interval) ≡ true) × (validate g (whole_ms (every interval)) ≡ false)
unfolding validate whole_ms
validate-short_interval g interval pos short = ground arith

module _ (g : Gronx) (later : TicksLater g) where
  -- A run that is planned lies at or behind the time it is counted from, and behind it for a cron
  -- expression and for an interval of a millisecond or more.
  pub next_run_later :
      (sch : Schedule) (from_ms n : ℕ)
      → compute_next_schedule_run g sch from_ms ≡ some n
      → 0 < n
      → from_ms ≤ n
  unfolding compute_next_schedule_run
  next_run_later (cron expr) from_ms n e pos = elim (Option-cases (g.next_tick expr from_ms)) [
    | inl none_left ↦ ground arith
    | inr (m, found) ↦ ground (arith, later expr from_ms m found)
  ]
  next_run_later (every interval) from_ms n e pos = ground arith
  next_run_later (at none) from_ms n e pos = ground arith
  next_run_later (at (some ms)) from_ms n e pos = ground arith
