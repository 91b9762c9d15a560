-- ===== src/Cron/Delay.antt =====
-- `nextDelayLocked` of internal/plugins/trigger/cron/service.go: how long the loop sleeps.
use Prim.Native.Nat.{max}
use maven.Base.{
  ℕ, ◌*◌, ◌-◌, ◌≤◌, ◌<◌, ◌≡◌, refl, Bool, true, not, ◌||◌, Option, none, some, List, [], ◌∷◌, arith,
  ltb, ◌==◌, if◌then◌else◌, All, All-map, Bool-cases, Option-cases, inl, inr, subst, ◌∙◌,
}
use maven.Cron.Schedule.{ns_per_ms, duration_of_ms, duration_exact}
use maven.Cron.Job.{CronJob}

-- One round of the loop over the jobs, at the least rest so far: none for -1.
step_rest : ℕ → Option ℕ → CronJob → Option ℕ
step_rest now least j =
    let rest = j.state.next_run_at_ms - now in
    let smaller : Bool = elim least [ none ↦ true | some m ↦ ltb rest m ] in
    if not j.enabled || j.state.next_run_at_ms == 0
    then least
    else if smaller
    then some rest
    else least

min_rest : ℕ → Option ℕ → List CronJob → Option ℕ
min_rest now least [] = least
min_rest now least (j ∷ jobs) = min_rest now (step_rest now least j) jobs

-- `nextDelayLocked`, in nanoseconds; 0 stands for a delay that is not positive, at which the timer
-- fires at once.
unfoldable pub next_delay : ℕ → List CronJob → ℕ
unfolding min_rest step_rest duration_of_ms
next_delay now jobs = elim (min_rest now none jobs) [
  | none ↦ 3600000000000
  | some rest ↦ if rest == 0 then 1000000 else duration_of_ms rest
]

-- A job that waits for its time.
abbrev pub IsArmed : CronJob → Type 0
IsArmed j = (j.enabled ≡ true) × (0 < j.state.next_run_at_ms)

-- The least rest is there and at most `r`.
abbrev Covers : Option ℕ → ℕ → Type 0
Covers none r = ⊥
Covers (some m) r = m ≤ r

step_rest-Covers :
    (now r : ℕ) (least : Option ℕ) (j : CronJob) → Covers least r → Covers (step_rest now least j) r
unfolding step_rest
step_rest-Covers now r none j h = absurd h
step_rest-Covers now r (some m) j h = ground arith

abbrev pub rest_of : ℕ → CronJob → ℕ
rest_of now j = j.state.next_run_at_ms - now

step_rest-armed :
    (now : ℕ) (least : Option ℕ) (j : CronJob)
    → IsArmed j
    → Covers (step_rest now least j) (rest_of now j)
unfolding step_rest
step_rest-armed now none j h = ground arith
step_rest-armed now (some m) j h = ground arith

min_rest-Covers :
    (now r : ℕ) (least : Option ℕ) (jobs : List CronJob)
    → Covers least r
    → Covers (min_rest now least jobs) r
unfolding min_rest
min_rest-Covers now r least [] h = h
min_rest-Covers now r least (j ∷ jobs) h =
    min_rest-Covers now r (step_rest now least j) jobs (step_rest-Covers now r least j h)

min_rest-All :
    (now : ℕ) (least : Option ℕ) (jobs : List CronJob)
    → All (λ j. IsArmed j → Covers (min_rest now least jobs) (rest_of now j)) jobs
unfolding min_rest
min_rest-All now least [] = tt
min_rest-All now least (j ∷ jobs) = (
  λ armed.
      min_rest-Covers now (rest_of now j) (step_rest now least j) jobs
        (step_rest-armed now least j armed),
  min_rest-All now (step_rest now least j) jobs,
)

step_rest-idle :
    (now : ℕ) (least : Option ℕ) (j : CronJob) → ¬ IsArmed j → step_rest now least j ≡ least
unfolding step_rest
step_rest-idle now least j h = elim (Bool-cases (not j.enabled || j.state.next_run_at_ms == 0)) [
  | inl off ↦ rw off
  | inr armed ↦ absurd (h (ground arith, ground arith))
]

min_rest-idle :
    (now : ℕ) (least : Option ℕ) (jobs : List CronJob)
    → All (λ j. ¬ IsArmed j) jobs
    → min_rest now least jobs ≡ least
unfolding min_rest
min_rest-idle now least [] h = refl
min_rest-idle now least (j ∷ jobs) (hj, hs) =
    rw (step_rest-idle now least j hj) (min_rest-idle now least jobs hs)

-- The rests of the jobs that wait are all at least `d`.
abbrev pub NotBefore : ℕ → ℕ → List CronJob → Type 0
NotBefore d now jobs = All (λ j. IsArmed j → d ≤ rest_of now j) jobs

abbrev AtLeast : ℕ → Option ℕ → Type 0
AtLeast d none = Unit
AtLeast d (some m) = d ≤ m

step_rest-AtLeast :
    (d now : ℕ) (least : Option ℕ) (j : CronJob)
    → AtLeast d least
    → (IsArmed j → d ≤ rest_of now j)
    → AtLeast d (step_rest now least j)
unfolding step_rest
step_rest-AtLeast d now none j h later =
    elim (Bool-cases (not j.enabled || j.state.next_run_at_ms == 0)) [
      | inl off ↦ rw off tt
      | inr armed ↦ rw armed (later (ground arith, ground arith))
    ]
step_rest-AtLeast d now (some m) j h later =
    elim (Bool-cases (not j.enabled || j.state.next_run_at_ms == 0)) [
      | inl off ↦ rw off h
      | inr armed ↦ elim (Bool-cases (ltb (rest_of now j) m)) [
        | inl lt ↦ rw (armed, lt) (later (ground arith, ground arith))
        | inr ge ↦ rw (armed, ge) h
      ]
    ]

min_rest-AtLeast :
    (d now : ℕ) (least : Option ℕ) (jobs : List CronJob)
    → AtLeast d least
    → NotBefore d now jobs
    → AtLeast d (min_rest now least jobs)
unfolding min_rest
min_rest-AtLeast d now least [] h later = h
min_rest-AtLeast d now least (j ∷ jobs) h (lj, ls) =
    min_rest-AtLeast d now (step_rest now least j) jobs (step_rest-AtLeast d now least j h lj) ls

-- The delay `delay`, in nanoseconds, of the loop over the jobs at `now`.
pub record Delay (now : ℕ) (jobs : List CronJob) (delay : ℕ) : Type 0 where
  pub in_time : All (λ j. IsArmed j → delay ≤ max 1 (rest_of now j) * ns_per_ms) jobs
  pub idle : All (λ j. ¬ IsArmed j) jobs → delay ≡ 3600000000000
  pub not_early :
      (d : ℕ)
      → NotBefore d now jobs
      → All (λ j. IsArmed j → rest_of now j ≤ 9223372036854 → max 1 d * ns_per_ms ≤ delay) jobs

delay_of_rest :
    (now : ℕ) (jobs : List CronJob) (r : ℕ)
    → Covers (min_rest now none jobs) r
    → next_delay now jobs ≤ max 1 r * ns_per_ms
delay_of_rest now jobs r h = elim (Option-cases (min_rest now none jobs)) [
  | inl e ↦ absurd (subst (λ o. Covers o r) e h)
  | inr (m, e) ↦
      unfold next_delay in
      rw (e, next_delay)
        (let le = subst (λ o. Covers o r) e h in unfold duration_of_ms in (ground arith))
]

-- A rest of at most 292 years is slept in full.
full_rest :
    (m : ℕ)
    → m ≤ 9223372036854
    → (if m == 0 then 1000000 else duration_of_ms m) ≡ max 1 m * ns_per_ms
full_rest m h = elim (Bool-cases (m == 0)) [
  | inl e ↦ rw e (ground arith)
  | inr e ↦ rw e (duration_exact m h ∙ ground arith)
]

delay_not_early :
    (d now : ℕ) (jobs : List CronJob) (r : ℕ)
    → AtLeast d (min_rest now none jobs)
    → Covers (min_rest now none jobs) r
    → r ≤ 9223372036854
    → max 1 d * ns_per_ms ≤ next_delay now jobs
delay_not_early d now jobs r low high small = elim (Option-cases (min_rest now none jobs)) [
  | inl e ↦ absurd (subst (λ o. Covers o r) e high)
  | inr (m, e) ↦
      let ge = subst (AtLeast d) e low in
      let le = subst (λ o. Covers o r) e high in
      let full = full_rest m (omega arith) in
      unfold next_delay in rw (e, next_delay, full) (omega arith)
]

-- The delay that `nextDelayLocked` gives is right, for every job list: it is not past the time of any
-- job that waits, or a millisecond if a time has come; it is an hour if no job waits; and it is at
-- least the time, or a millisecond, before which none of the jobs that wait is due, if one of them is
-- due within 9223372036854 milliseconds, the longest whole number of them in a `time.Duration`.
pub next_delay-Delay : (now : ℕ) (jobs : List CronJob) → Delay now jobs (next_delay now jobs)
next_delay-Delay now jobs = record {
  in_time =
      All-map (λ j h armed. delay_of_rest now jobs (rest_of now j) (h armed)) jobs
        (min_rest-All now none jobs);
  idle = λ h. unfold next_delay in rw (min_rest-idle now none jobs h, next_delay);
  not_early = λ d later.
      All-map
        (λ j h armed small.
          delay_not_early d now jobs (rest_of now j) (min_rest-AtLeast d now none jobs tt later)
            (h armed) small)
        jobs (min_rest-All now none jobs);
}
