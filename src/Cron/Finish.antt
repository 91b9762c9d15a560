-- ===== src/Cron/Finish.antt =====
-- The end of a run in `fire` of internal/plugins/trigger/cron/service.go: what becomes of the job.
use maven.Base.{
  ℕ, ◌≡◌, ◌≢◌, refl, ap, ◌∙◌, subst, inl, inr, Bool, true, false, Option, none, some, List, [], ◌∷◌,
  arith, if◌then◌else◌, All, Bool-cases,
}
use maven.Base.Result.{Result, ok, err}
use maven.Base.Text.{Text, codes, text_eq}
use maven.Base.Text.Laws.{text_eq_iff}
use maven.Cron.Schedule.{Gronx, compute_next_schedule_run, is_at_schedule}
use maven.Cron.Job.{CronJob}
use maven.Cron.Service.{
  Service, save, find_job, set_job, remove_job_at, reschedule, ran, finish_jobs, delivery_of,
  finish,
}
use maven.Cron.Quiet.{find_job-id}

find_job-set :
    (k : Text) (jobs : List CronJob) (j new : CronJob)
    → find_job k jobs ≡ some j
    → new.id ≡ k
    → find_job k (set_job k new jobs) ≡ some new
unfolding find_job set_job
find_job-set k [] j new e own = cc
find_job-set k (x ∷ jobs) j new e own =
    ground (arith, text_eq_iff x.id k, text_eq_iff new.id k, find_job-set k jobs j new)

-- No two jobs share an id.
abbrev pub Distinct : List CronJob → Type 0
Distinct [] = Unit
Distinct (j ∷ jobs) = All (λ i. i.id ≢ j.id) jobs × Distinct jobs

find_job-fresh :
    (k : Text) (jobs : List CronJob) → All (λ i. i.id ≢ k) jobs → find_job k jobs ≡ none
unfolding find_job
find_job-fresh k [] h = refl
find_job-fresh k (x ∷ jobs) (hx, hs) = ground (arith, text_eq_iff x.id k, find_job-fresh k jobs hs)

pub find_job-remove :
    (k : Text) (jobs : List CronJob) → Distinct jobs → find_job k (remove_job_at k jobs) ≡ none
unfolding find_job remove_job_at
find_job-remove k [] d = refl
find_job-remove k (x ∷ jobs) (dx, ds) = elim (Bool-cases (text_eq x.id k)) [
  | inl hit ↦ rw hit (
      find_job-fresh k jobs (subst (λ i. All (λ y. y.id ≢ i) jobs) ((text_eq_iff x.id k).0 hit) dx))
  | inr miss ↦ rw (miss, miss) (find_job-remove k jobs ds)
]

-- What a run that ended at `done_ms` makes of the job `j` of the list.
pub record Ended (g : Gronx) (done_ms : ℕ) (outcome : Result Text Text) (j j' : CronJob)
    : Type 0 where
  pub last_run : j'.state.last_run_at_ms ≡ done_ms
  pub succeeded :
      (out : Text)
      → outcome ≡ ok out
      → (j'.state.last_status ≡ codes "ok") × (j'.state.last_error ≡ [])
  pub failed :
      (e : Text)
      → outcome ≡ err e
      → (j'.state.last_status ≡ codes "error") × (j'.state.last_error ≡ e)
  pub once : is_at_schedule j.schedule ≡ true → (j'.enabled ≡ false) × (j'.state.next_run_at_ms ≡ 0)
  pub again :
      (n : ℕ)
      → is_at_schedule j.schedule ≡ false
      → compute_next_schedule_run g j.schedule done_ms ≡ some n
      → (j'.enabled ≡ j.enabled) × (j'.state.next_run_at_ms ≡ n)
  pub unplanned :
      is_at_schedule j.schedule ≡ false
      → compute_next_schedule_run g j.schedule done_ms ≡ none
      → (j'.enabled ≡ j.enabled) × (j'.state.next_run_at_ms ≡ j.state.next_run_at_ms)
  pub same :
      (j'.id ≡ j.id)
      × (j'.name ≡ j.name)
      × (j'.schedule ≡ j.schedule)
      × (j'.payload ≡ j.payload)
      × (j'.delete_after_run ≡ j.delete_after_run)

module _ (g : Gronx) (done_ms : ℕ) (outcome : Result Text Text) (j : CronJob) where
  -- The job that is written back.
  ended : CronJob
  ended =
      if is_at_schedule j.schedule
      then ran g done_ms outcome j
      else reschedule g done_ms (ran g done_ms outcome j)

  ended-id : ended.id ≡ j.id
  unfolding ended ran
  ended-id = ground arith

  ended-Ended : Ended g done_ms outcome j ended
  unfolding ended ran
  ended-Ended = record {
    last_run = ground arith;
    succeeded = λ out e. (ground arith, ground arith);
    failed = λ why e. (ground arith, ground arith);
    once = λ h. (ground arith, ground arith);
    again = λ n h e. (ground arith, ground arith);
    unplanned = λ h e. (ground arith, ground arith);
    same = (ground arith, ground arith, ground arith, ground arith, ground arith);
  }

-- The end of the run of `job`, in the list `jobs`.
pub record Finished (g : Gronx) (job : CronJob) (done_ms : ℕ) (outcome : Result Text Text)
    (jobs after : List CronJob) (delivery : Option (CronJob × Text)) : Type 0 where
  pub gone : find_job job.id jobs ≡ none → (after ≡ jobs) × (delivery ≡ none)
  pub deleted :
      (j : CronJob)
      → find_job job.id jobs ≡ some j
      → j.delete_after_run ≡ true
      → Distinct jobs
      → find_job job.id after ≡ none
  pub kept :
      (j : CronJob)
      → find_job job.id jobs ≡ some j
      → j.delete_after_run ≡ false
      → (j' : CronJob) × (find_job job.id after ≡ some j') × Ended g done_ms outcome j j'
  pub delivered :
      (j : CronJob)
      → find_job job.id jobs ≡ some j
      → ((out : Text) → outcome ≡ ok out → delivery ≡ some (job, out))
        × ((e : Text) → outcome ≡ err e → delivery ≡ none)

save_jobs : (saved : Bool) (s : Service) → (save saved s).jobs ≡ s.jobs
unfolding save
save_jobs true s = refl
save_jobs false s = refl

module _ (g : Gronx) (job : CronJob) (done_ms : ℕ) (outcome : Result Text Text) where
  finish_jobs-kept :
      (jobs : List CronJob) (j : CronJob)
      → find_job job.id jobs ≡ some j
      → j.delete_after_run ≡ false
      → finish_jobs g job.id done_ms outcome jobs ≡ set_job job.id (ended g done_ms outcome j) jobs
  unfolding finish_jobs ended
  finish_jobs-kept jobs j found stays = elim (Bool-cases (is_at_schedule j.schedule)) [
    | inl one ↦ rw (found, stays, one, finish_jobs) refl
    | inr more ↦ rw (found, stays, more, finish_jobs) refl
  ]

  finish_jobs-deleted :
      (jobs : List CronJob) (j : CronJob)
      → find_job job.id jobs ≡ some j
      → j.delete_after_run ≡ true
      → finish_jobs g job.id done_ms outcome jobs ≡ remove_job_at job.id jobs
  unfolding finish_jobs
  finish_jobs-deleted jobs j found del = rw (found, del, finish_jobs) refl

  -- After a run a job that is deleted after its run is gone, if no two jobs share an id. Any other
  -- one is found under its id, with the time of the run, the status "ok" and no error or the status
  -- "error" and the error's text: a one-shot job is disabled without a next run, another one has the
  -- next run that its schedule gives, or its old one where the schedule gives none; nothing else of
  -- the job changes. A job that is no longer in the list changes nothing. The output is handed to
  -- delivery exactly if the run succeeded and the job is still there.
  pub finish-Finished :
      (saved : Bool) (s : Service)
      → Finished g job done_ms outcome s.jobs
          (finish g job done_ms outcome saved s).0.jobs
          (finish g job done_ms outcome saved s).1
  unfolding finish finish_jobs
  finish-Finished saved s = rw (save_jobs saved _) (record {
    gone = λ e. (rw (e, finish_jobs) refl, unfold delivery_of in rw e);
    deleted =
        λ j e del d. rw (finish_jobs-deleted s.jobs j e del) (find_job-remove job.id s.jobs d);
    kept = λ j e stays. (
      ended g done_ms outcome j,
      ap (find_job job.id) (finish_jobs-kept s.jobs j e stays)
          ∙ find_job-set job.id s.jobs j (ended g done_ms outcome j) e
              (ended-id g done_ms outcome j ∙ find_job-id job.id s.jobs j e),
      ended-Ended g done_ms outcome j,
    );
    delivered = λ j e. (
      λ out good. unfold delivery_of in rw (good, e),
      λ why bad. unfold delivery_of in rw (bad, e),
    );
  })
