-- ===== src/Cron/Quiet.antt =====
-- In internal/plugins/trigger/cron/service.go a disabled job is fired by nothing until it is enabled.
pub mod Steps
use maven.Base.{
  ℕ, ◌<◌, ◌≤◌, ◌≡◌, ◌≢◌, refl, sym, ap, ◌∙◌, subst, inl, inr, Bool, true, false, not, Option, none,
  some, List, [], ◌∷◌, ◌++◌, map, arith, leb, if◌then◌else◌, All, All-append, Bool-cases,
  Option-cases,
}
use maven.Base.Result.{Result, ok, err}
use maven.Base.Text.{Text, text_eq}
use maven.Base.Text.Laws.{text_eq_iff}
use maven.Base.Unicode.{Unicode}
use maven.Cron.Schedule.{validate, Gronx, Schedule, compute_next_schedule_run, is_at_schedule}
use maven.Cron.Job.{validate_payload, Payload, CronJob, JobState, PayloadError, new_cron_job}
use maven.Cron.Service.{
  Service, save, find_job, set_job, remove_job_at, set_next, is_due, disarm, fire_job, keep_jobs,
  due_jobs, check_and_fire, reschedule, apply_job_validation_failure, failed_job, ran, finish_jobs,
  finish, begin, add_job, enabled_job, enable_job, remove_job,
}
use maven.Cron.Runs.{Event, ticks, begins, ends, adds, enables, removes, step, steps}

-- Every job of this id is disabled.
abbrev pub Quiet : Text → List CronJob → Type 0
Quiet id = All (λ j. j.id ≡ id → j.enabled ≡ false)

-- The event does not enable the job, nor add one of this id.
abbrev pub Leaves : Text → Event → Type 0
Leaves id (adds uuid name sch payload now saved) = uuid ≢ id
Leaves id (enables i true now saved) = i ≢ id
Leaves id e = Unit

pub Quiet-map :
    (id : Text) (f : CronJob → CronJob) (jobs : List CronJob)
    → ((j : CronJob) → ((f j).id ≡ j.id) × (j.enabled ≡ false → (f j).enabled ≡ false))
    → Quiet id jobs
    → Quiet id (map f jobs)
Quiet-map id f [] keeps q = tt
Quiet-map id f (j ∷ jobs) keeps (qj, qs) =
    (λ e. (keeps j).1 (qj (sym (keeps j).0 ∙ e)), Quiet-map id f jobs keeps qs)

pub Quiet-set :
    (id k : Text) (new : CronJob) (jobs : List CronJob)
    → (new.id ≡ id → new.enabled ≡ false)
    → Quiet id jobs
    → Quiet id (set_job k new jobs)
unfolding set_job
Quiet-set id k new [] h q = tt
Quiet-set id k new (j ∷ jobs) h (qj, qs) = ground (arith, Quiet-set id k new jobs h qs)

pub Quiet-remove :
    (id k : Text) (jobs : List CronJob) → Quiet id jobs → Quiet id (remove_job_at k jobs)
unfolding remove_job_at
Quiet-remove id k [] q = tt
Quiet-remove id k (j ∷ jobs) (qj, qs) = ground (arith, Quiet-remove id k jobs qs)

pub find_job-Quiet :
    (id k : Text) (jobs : List CronJob) (j : CronJob)
    → Quiet id jobs
    → find_job k jobs ≡ some j
    → j.id ≡ id
    → j.enabled ≡ false
unfolding find_job
find_job-Quiet id k [] j q e = cc
find_job-Quiet id k (x ∷ jobs) j (qx, qs) e = ground (arith, find_job-Quiet id k jobs j qs)

pub find_job-id :
    (k : Text) (jobs : List CronJob) (j : CronJob) → find_job k jobs ≡ some j → j.id ≡ k
unfolding find_job
find_job-id k [] j e = cc
find_job-id k (x ∷ jobs) j e = ground (arith, text_eq_iff x.id k, find_job-id k jobs j)

pub save-Quiet :
    (id : Text) (saved : Bool) (s : Service) → Quiet id s.jobs → Quiet id (save saved s).jobs
unfolding save
save-Quiet id true s q = q
save-Quiet id false s q = q

pub fire_job-quiet :
    (now : ℕ) (j : CronJob)
    → ((fire_job now j).id ≡ j.id) × (j.enabled ≡ false → (fire_job now j).enabled ≡ false)
unfolding fire_job disarm
fire_job-quiet now j = (ground arith, λ h. ground arith)

module _ (g : Gronx) (id : Text) where
  reschedule-same :
      (after : ℕ) (j : CronJob)
      → ((reschedule g after j).id ≡ j.id) × ((reschedule g after j).enabled ≡ j.enabled)
  reschedule-same after j = (ground arith, ground arith)

  ran-quiet :
      (done_ms : ℕ) (outcome : Result Text Text) (j : CronJob)
      → ((ran g done_ms outcome j).id ≡ j.id)
        × (j.enabled ≡ false → (ran g done_ms outcome j).enabled ≡ false)
  unfolding ran
  ran-quiet done_ms outcome j = (ground arith, λ h. ground arith)

  pub finish_jobs-Quiet :
      (k : Text) (done_ms : ℕ) (outcome : Result Text Text) (jobs : List CronJob)
      → Quiet id jobs
      → Quiet id (finish_jobs g k done_ms outcome jobs)
  unfolding finish_jobs
  finish_jobs-Quiet k done_ms outcome jobs q = elim (Option-cases (find_job k jobs)) [
    | inl e ↦ rw (e, finish_jobs) q
    | inr (j, e) ↦
        let j' = ran g done_ms outcome j in
        let same = ran-quiet done_ms outcome j in
        let again = reschedule-same done_ms j' in
        let off = λ (h : j.id ≡ id). same.1 (find_job-Quiet id k jobs j q e h) in
        rw (e, finish_jobs)
          (pick j.delete_after_run (is_at_schedule j.schedule) _ _ _ (Quiet-remove id k jobs q)
            (Quiet-set id k j' jobs (λ h. off (sym same.0 ∙ h)) q)
            (Quiet-set id k (reschedule g done_ms j') jobs
              (λ h. again.1 ∙ off (sym same.0 ∙ sym again.0 ∙ h)) q))
  ]
    where
      pick :
          (b c : Bool) (x y z : List CronJob)
          → Quiet id x
          → Quiet id y
          → Quiet id z
          → Quiet id (if b then x else if c then y else z)
      pick true c x y z qx qy qz = qx
      pick false true x y z qx qy qz = qy
      pick false false x y z qx qy qz = qz

  pub failure-Quiet :
      (k : Text) (e : PayloadError) (now : ℕ) (jobs : List CronJob)
      → Quiet id jobs
      → Quiet id (apply_job_validation_failure g k e now jobs)
  unfolding apply_job_validation_failure failed_job
  failure-Quiet k why now jobs q = elim (Option-cases (find_job k jobs)) [
    | inl e ↦ rw (e, apply_job_validation_failure) q
    | inr (j, e) ↦
        rw (e, apply_job_validation_failure)
          (let same = reschedule-same now (failed_job why j) in
            Quiet-set id k (reschedule g now (failed_job why j)) jobs
              (λ h. same.1 ∙ find_job-Quiet id k jobs j q e (sym same.0 ∙ h)) q)
  ]

  pub enabled_job-id : (flag : Bool) (now : ℕ) (j : CronJob) → (enabled_job g flag now j).id ≡ j.id
  unfolding enabled_job
  enabled_job-id flag now j = ground arith

  pub enabled_job-off : (now : ℕ) (j : CronJob) → (enabled_job g false now j).enabled ≡ false
  unfolding enabled_job
  enabled_job-off now j = refl
