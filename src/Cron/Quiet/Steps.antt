-- ===== src/Cron/Quiet/Steps.antt =====
-- The steps of internal/plugins/trigger/cron/service.go that leave a disabled job disabled.
use maven.Base.{
  ℕ, ◌≡◌, ◌≢◌, sym, ◌∙◌, inl, inr, Bool, true, false, List, [], ◌∷◌, ◌++◌, arith, All, All-append,
  Bool-cases, Option-cases,
}
use maven.Base.Result.{Result}
use maven.Base.Text.{Text}
use maven.Base.Unicode.{Unicode}
use maven.Cron.Schedule.{validate, Gronx, Schedule, compute_next_schedule_run}
use maven.Cron.Job.{validate_payload, Payload, CronJob, new_cron_job}
use maven.Cron.Service.{
  Service, find_job, set_job, remove_job_at, set_next, is_due, disarm, fire_job, keep_jobs,
  due_jobs, check_and_fire, finish, begin, add_job, enabled_job, enable_job, remove_job,
}
use maven.Cron.Runs.{Event, ticks, begins, ends, adds, enables, removes, step, steps}
use maven.Cron.Quiet.{
  Quiet, Leaves, Quiet-map, Quiet-set, Quiet-remove, find_job-id, save-Quiet, fire_job-quiet,
  finish_jobs-Quiet, failure-Quiet, enabled_job-id, enabled_job-off,
}

module _ (g : Gronx) (u : Unicode) (id : Text) where
  check-Quiet :
      (now : ℕ) (saved : Bool) (s : Service)
      → Quiet id s.jobs
      → Quiet id (check_and_fire now saved s).0.jobs
  unfolding check_and_fire
  check-Quiet now saved s q =
      save-Quiet id saved (record s { jobs = keep_jobs now s.jobs })
        (unfold keep_jobs in Quiet-map id (fire_job now) s.jobs (fire_job-quiet now) q)

  begin-Quiet :
      (job : CronJob) (now : ℕ) (saved : Bool) (s : Service)
      → Quiet id s.jobs
      → Quiet id (begin g u job now saved s).0.jobs
  unfolding begin
  begin-Quiet job now saved s q = elim (Option-cases (validate_payload u job.payload)) [
    | inl e ↦ rw (e, begin) q
    | inr (why, e) ↦
        rw (e, begin) (save-Quiet id saved _ (failure-Quiet g id job.id why now s.jobs q))
  ]

  finish-Quiet :
      (job : CronJob) (done_ms : ℕ) (outcome : Result Text Text) (saved : Bool) (s : Service)
      → Quiet id s.jobs
      → Quiet id (finish g job done_ms outcome saved s).0.jobs
  unfolding finish
  finish-Quiet job done_ms outcome saved s q =
      save-Quiet id saved _ (finish_jobs-Quiet g id job.id done_ms outcome s.jobs q)

  add-Quiet :
      (uuid name : Text) (sch : Schedule) (payload : Payload) (now : ℕ) (saved : Bool) (s : Service)
      → uuid ≢ id
      → Quiet id s.jobs
      → Quiet id (add_job g uuid name sch payload now saved s).0.jobs
  unfolding add_job new_cron_job
  add-Quiet uuid name sch payload now saved s new q = elim (Bool-cases (validate g sch)) [
    | inr bad ↦ rw (bad, add_job) q
    | inl good ↦ elim (Option-cases (compute_next_schedule_run g sch now)) [
      | inl e ↦ rw (good, e, add_job) q
      | inr (n, e) ↦ rw (good, e, add_job) (save-Quiet id saved (appended n) (quiet n))
    ]
  ]
    where
      added : ℕ → CronJob
      added n = set_next n (new_cron_job uuid name sch payload)

      appended : ℕ → Service
      appended n = record s { jobs = s.jobs ++ added n ∷ [] }

      quiet : (n : ℕ) → Quiet id (appended n).jobs
      quiet n =
          All-append (λ j. j.id ≡ id → j.enabled ≡ false) s.jobs (added n ∷ []) q
            ((λ h. absurd (new h)), tt)

  remove-Quiet :
      (k : Text) (saved : Bool) (s : Service)
      → Quiet id s.jobs
      → Quiet id (remove_job k saved s).0.jobs
  unfolding remove_job
  remove-Quiet k saved s q = elim (Option-cases (find_job k s.jobs)) [
    | inl e ↦ rw (e, remove_job) q
    | inr (j, e) ↦
        rw (e, remove_job)
          (save-Quiet id saved (record s { jobs = remove_job_at k s.jobs })
            (Quiet-remove id k s.jobs q))
  ]

  enable-Quiet :
      (k : Text) (flag : Bool) (now : ℕ) (saved : Bool) (s : Service)
      → Leaves id (enables k flag now saved)
      → Quiet id s.jobs
      → Quiet id (enable_job g k flag now saved s).0.jobs
  unfolding enable_job
  enable-Quiet k flag now saved s l q = elim (Option-cases (find_job k s.jobs)) [
    | inl e ↦ rw (e, enable_job) q
    | inr (j, e) ↦
        let j' = enabled_job g flag now j in
        rw (e, enable_job)
          (save-Quiet id saved (record s { jobs = set_job k j' s.jobs })
            (Quiet-set id k j' s.jobs (off flag l j (find_job-id k s.jobs j e)) q))
  ]
    where
      off :
          (b : Bool)
          → Leaves id (enables k b now saved)
          → (j : CronJob) → j.id ≡ k
          → (enabled_job g b now j).id ≡ id
          → (enabled_job g b now j).enabled ≡ false
      off true l j own h = absurd (l (sym own ∙ sym (enabled_job-id g id true now j) ∙ h))
      off false l j own h = enabled_job-off g id now j

  step-Quiet :
      (s : Service) (e : Event) → Leaves id e → Quiet id s.jobs → Quiet id (step g u s e).jobs
  unfolding step
  step-Quiet s (ticks now saved) l q = check-Quiet now saved s q
  step-Quiet s (begins job now saved) l q = begin-Quiet job now saved s q
  step-Quiet s (ends job done_ms outcome saved) l q = finish-Quiet job done_ms outcome saved s q
  step-Quiet s (adds uuid name sch payload now saved) l q =
      add-Quiet uuid name sch payload now saved s l q
  step-Quiet s (enables k flag now saved) l q = enable-Quiet k flag now saved s l q
  step-Quiet s (removes k saved) l q = remove-Quiet k saved s q

  pub steps-Quiet :
      (s : Service) (es : List Event)
      → All (Leaves id) es
      → Quiet id s.jobs
      → Quiet id (steps g u s es).jobs
  unfolding steps
  steps-Quiet s [] l q = q
  steps-Quiet s (e ∷ es) (l, ls) q = steps-Quiet (step g u s e) es ls (step-Quiet s e l q)

  disarm-id : (j : CronJob) → (disarm j).id ≡ j.id
  unfolding disarm
  disarm-id j = ground arith

  due-other :
      (now : ℕ) (j : CronJob) → is_due now j ≡ true → (j.id ≡ id → j.enabled ≡ false) → j.id ≢ id
  unfolding is_due
  due-other now j due q own = let off = q own in absurd (ground arith)

  due_jobs-Quiet :
      (now : ℕ) (jobs : List CronJob) → Quiet id jobs → All (λ j. j.id ≢ id) (due_jobs now jobs)
  unfolding due_jobs
  due_jobs-Quiet now [] q = tt
  due_jobs-Quiet now (j ∷ jobs) (qj, qs) = elim (Bool-cases (is_due now j)) [
    | inr idle ↦ rw idle (due_jobs-Quiet now jobs qs)
    | inl due ↦ rw due (
      (λ h. due-other now j due (λ own. qj own) (sym (disarm-id j) ∙ h)),
      due_jobs-Quiet now jobs qs,
    )
  ]

  -- A job that is disabled is not fired by any check, after any steps of the service in any order,
  -- as long as nothing enables it and no job is added under its id.
  pub disabled_never_fires :
      (s : Service) (es : List Event) (now : ℕ) (saved : Bool)
      → Quiet id s.jobs
      → All (Leaves id) es
      → All (λ j. j.id ≢ id) (check_and_fire now saved (steps g u s es)).1
  unfolding check_and_fire
  disabled_never_fires s es now saved q l =
      due_jobs-Quiet now (steps g u s es).jobs (steps-Quiet s es l q)
