-- ===== src/Cron/Firing.antt =====
-- `checkAndFire`, `ensureNextRunLocked` and `Start` of internal/plugins/trigger/cron/service.go:
-- which jobs run, and what becomes of them after a stop.
use mathlib.Core.Option
use maven.Base.{
  ℕ, ◌≡◌, refl, ap, ◌∙◌, inl, inr, Bool, true, false, some, List, [], ◌∷◌, map, arith, All, keep,
  Bool-cases,
}
use maven.Base.Text.{Text, text_eq}
use maven.Cron.Schedule.{Gronx}
use maven.Cron.Job.{CronJob}
use maven.Cron.Service.{
  Service, find_job, is_due, disarm, fire_job, keep_jobs, due_jobs, check_and_fire, ensure_job,
  ensure_next_run,
}

pub check_and_fire_jobs :
    (now : ℕ) (saved : Bool) (s : Service)
    → (check_and_fire now saved s).0.jobs ≡ keep_jobs now s.jobs
unfolding check_and_fire
check_and_fire_jobs now true s = refl
check_and_fire_jobs now false s = refl

check_and_fire_due :
    (now : ℕ) (saved : Bool) (s : Service) → (check_and_fire now saved s).1 ≡ due_jobs now s.jobs
unfolding check_and_fire
check_and_fire_due now saved s = refl

fire_job-not_due : (now : ℕ) (j : CronJob) → is_due now (fire_job now j) ≡ false
unfolding fire_job is_due
fire_job-not_due now j = ground arith

fire_job-id : (now : ℕ) (j : CronJob) → (fire_job now j).id ≡ j.id
unfolding fire_job disarm
fire_job-id now j = ground arith

ensure_job-id : (g : Gronx) (now : ℕ) (j : CronJob) → (ensure_job g now j).id ≡ j.id
unfolding ensure_job
ensure_job-id g now j = ground arith

-- A change of every job that keeps the ids is a change of the job that is found.
pub find_job-map :
    (f : CronJob → CronJob) (id : Text) (jobs : List CronJob)
    → ((j : CronJob) → (f j).id ≡ j.id)
    → find_job id (map f jobs) ≡ Option.map f (find_job id jobs)
unfolding find_job
find_job-map f id [] same = refl
find_job-map f id (j ∷ jobs) same = elim (Bool-cases (text_eq j.id id)) [
  | inl hit ↦
      rw
        (hit, let kept : text_eq (f j).id id ≡ true = ap (λ k. text_eq k id) (same j) ∙ hit in kept)
  | inr miss ↦
      rw
        (
          miss,
          let kept : text_eq (f j).id id ≡ false = ap (λ k. text_eq k id) (same j) ∙ miss in kept,
        )
        (find_job-map f id jobs same)
]

pub find_job-kept :
    (now : ℕ) (id : Text) (jobs : List CronJob)
    → find_job id (keep_jobs now jobs) ≡ Option.map (fire_job now) (find_job id jobs)
unfolding keep_jobs
find_job-kept now id jobs = find_job-map (fire_job now) id jobs (fire_job-id now)

pub find_job-ensured :
    (g : Gronx) (now : ℕ) (id : Text) (jobs : List CronJob)
    → find_job id (ensure_next_run g now jobs) ≡ Option.map (ensure_job g now) (find_job id jobs)
unfolding ensure_next_run
find_job-ensured g now id jobs = find_job-map (ensure_job g now) id jobs (ensure_job-id g now)

-- What `checkAndFire` does at `now`: it hands out the due jobs in order, a one-shot job disabled;
-- a job that is not due stays as it is; and nothing that is kept is due at `now`.
pub record Fired (now : ℕ) (jobs kept due : List CronJob) : Type 0 where
  pub handed : due ≡ map disarm (keep (is_due now) jobs)
  pub untouched :
      (id : Text) (j : CronJob)
      → find_job id jobs ≡ some j
      → is_due now j ≡ false
      → find_job id kept ≡ some j
  pub settled : All (λ j. is_due now j ≡ false) kept

due_jobs-handed :
    (now : ℕ) (jobs : List CronJob) → due_jobs now jobs ≡ map disarm (keep (is_due now) jobs)
unfolding due_jobs
due_jobs-handed now [] = refl
due_jobs-handed now (j ∷ jobs) = elim (Bool-cases (is_due now j)) [
  | inl due ↦ rw due (ap (◌∷◌ (disarm j)) (due_jobs-handed now jobs))
  | inr idle ↦ rw idle (due_jobs-handed now jobs)
]

keep_jobs-settled :
    (now : ℕ) (jobs : List CronJob) → All (λ j. is_due now j ≡ false) (keep_jobs now jobs)
unfolding keep_jobs
keep_jobs-settled now [] = tt
keep_jobs-settled now (j ∷ jobs) = (fire_job-not_due now j, keep_jobs-settled now jobs)

fire_job-idle : (now : ℕ) (j : CronJob) → is_due now j ≡ false → fire_job now j ≡ j
unfolding fire_job
fire_job-idle now j h = rw h

-- Every check fires the jobs that are due, each once, whether the file can be written or not.
pub check_and_fire-Fired :
    (now : ℕ) (saved : Bool) (s : Service)
    → Fired now s.jobs (check_and_fire now saved s).0.jobs (check_and_fire now saved s).1
check_and_fire-Fired now saved s = rw (check_and_fire_jobs now saved s) (record {
  handed = check_and_fire_due now saved s ∙ due_jobs-handed now s.jobs;
  untouched = λ id j found idle.
      find_job-kept now id s.jobs ∙ rw found (ap some (fire_job-idle now j idle));
  settled = keep_jobs-settled now s.jobs;
})
