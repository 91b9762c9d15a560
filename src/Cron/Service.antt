-- ===== src/Cron/Service.antt =====
-- internal/plugins/trigger/cron/service.go: the job list and the operations on it. The mutex makes
-- each of them one step, except that a job runs between `check_and_fire` and `finish`. The file is
-- written at the end of most steps: `saved` is whether that works. Times are milliseconds.
use maven.Base.{
  ℕ, Bool, true, false, not, ◌||◌, Option, none, some, List, [], ◌∷◌, ◌++◌, ◌≡◌, refl, map, ltb,
  leb, ◌==◌, if◌then◌else◌,
}
use maven.Base.Result.{Result, ok, err}
use maven.Base.Text.{Text, codes, text_eq}
use maven.Base.Unicode.{Unicode}
use maven.Cron.Schedule.{Gronx, Schedule, compute_next_schedule_run, validate, is_at_schedule}
use maven.Cron.Job.{
  Payload, CronJob, StoredJob, marshal_job, unmarshal_job, reread_job, unmarshal-marshal_job,
  new_cron_job, validate_payload, payload_error_text, PayloadError,
}

-- `Service`: the jobs, and the JSON forms of jobs that the file at `storePath` holds.
pub record Service : Type 0 where
  pub jobs : List CronJob
  pub file : List StoredJob

-- The errors of `AddJob`.
pub data AddError : Type 0 where
  bad_schedule no_next not_saved : AddError

-- `saveAtomicLocked`, which leaves the file alone where it fails.
unfoldable pub save : Bool → Service → Service
unfolding marshal_job
save saved s = if saved then record s { file = map marshal_job s.jobs } else s

-- The jobs that `load` reads from a file. The service writes no schedule of an unknown kind, at
-- which the reading would break off: none.
unfoldable pub load : List StoredJob → Option (List CronJob)
unfolding unmarshal_job
load [] = some []
load (raw ∷ file) = elim (unmarshal_job raw) [
  | none ↦ none
  | some j ↦ elim (load file) [ none ↦ none | some jobs ↦ some (j ∷ jobs) ]
]

pub load-marshal : (jobs : List CronJob) → load (map marshal_job jobs) ≡ some (map reread_job jobs)
unfolding load
load-marshal [] = refl
load-marshal (j ∷ jobs) = rw (unmarshal-marshal_job j, load, load-marshal jobs) refl

-- `s.jobs[findJobIndex(id)]`, which is `JobByID` too.
unfoldable pub find_job : Text → List CronJob → Option CronJob
unfolding text_eq
find_job id [] = none
find_job id (j ∷ jobs) = if text_eq j.id id then some j else find_job id jobs

-- An assignment through `&s.jobs[findJobIndex(id)]`.
unfoldable pub set_job : Text → CronJob → List CronJob → List CronJob
unfolding text_eq
set_job id new [] = []
set_job id new (j ∷ jobs) = if text_eq j.id id then new ∷ jobs else j ∷ set_job id new jobs

-- `append(s.jobs[:idx], s.jobs[idx+1:]...)`.
unfoldable pub remove_job_at : Text → List CronJob → List CronJob
unfolding text_eq
remove_job_at id [] = []
remove_job_at id (j ∷ jobs) = if text_eq j.id id then jobs else j ∷ remove_job_at id jobs

abbrev pub set_next : ℕ → CronJob → CronJob
set_next n j = record j { state = record (j.state) { next_run_at_ms = n } }

-- The time from which a job's next run is counted.
unfoldable pub from_ms : ℕ → CronJob → ℕ
from_ms now j = if j.state.last_run_at_ms == 0 then now else j.state.last_run_at_ms

-- `isDue`.
unfoldable pub is_due : ℕ → CronJob → Bool
is_due now j =
    if not j.enabled || j.state.next_run_at_ms == 0 then false else leb j.state.next_run_at_ms now

-- What `checkAndFire` hands to the goroutine, and what it keeps of the job.
unfoldable pub disarm : CronJob → CronJob
disarm j = if is_at_schedule j.schedule then record j { enabled = false } else j

unfoldable pub fire_job : ℕ → CronJob → CronJob
fire_job now j = if is_due now j then set_next 0 (disarm j) else j

-- The loop of `checkAndFire`: the jobs kept, and the due ones.
unfoldable pub keep_jobs : ℕ → List CronJob → List CronJob
keep_jobs now jobs = map (fire_job now) jobs

unfoldable pub due_jobs : ℕ → List CronJob → List CronJob
due_jobs now [] = []
due_jobs now (j ∷ jobs) = if is_due now j then disarm j ∷ due_jobs now jobs else due_jobs now jobs

-- `checkAndFire`: the service, and the jobs of the goroutines that it starts.
unfoldable pub check_and_fire : ℕ → Bool → Service → Service × List CronJob
unfolding keep_jobs due_jobs fire_job is_due disarm is_at_schedule save
check_and_fire now saved s =
    (save saved (record s { jobs = keep_jobs now s.jobs }), due_jobs now s.jobs)

-- The job with the validation error noted.
unfoldable pub failed_job : PayloadError → CronJob → CronJob
failed_job e j = record j {
  state = record (j.state) { last_status = codes "error"; last_error = payload_error_text e };
}

-- `AfterSuccessfulRun` is called for a run without an error, if the job is still in the list.
unfoldable pub delivery_of : CronJob → Result Text Text → Option CronJob → Option (CronJob × Text)
delivery_of job outcome none = none
delivery_of job (ok out) (some j) = some (job, out)
delivery_of job (err e) (some j) = none

module _ (g : Gronx) where
  unfoldable pub ensure_job : ℕ → CronJob → CronJob
  ensure_job now j =
      if not j.enabled || ltb 0 j.state.next_run_at_ms
      then j
      else elim (compute_next_schedule_run g j.schedule (from_ms now j)) [
        | none ↦ j
        | some n ↦ set_next n j
      ]

  -- `ensureNextRunLocked`.
  unfoldable pub ensure_next_run : ℕ → List CronJob → List CronJob
  unfolding ensure_job from_ms compute_next_schedule_run
  ensure_next_run now jobs = map (ensure_job now) jobs

  -- `Start`, with the jobs that `load` leaves in `s.jobs`; none where it leaves the jobs alone.
  unfoldable pub start : Option (List CronJob) → ℕ → Bool → Service → Service
  unfolding ensure_next_run save
  start loaded now saved s =
      let jobs : List CronJob = elim loaded [ none ↦ s.jobs | some l ↦ l ] in
      save saved (record s { jobs = ensure_next_run now jobs })

  abbrev pub reschedule : ℕ → CronJob → CronJob
  reschedule after j = elim (compute_next_schedule_run g j.schedule after) [
    | none ↦ j
    | some n ↦ set_next n j
  ]

  -- `applyJobValidationFailure`.
  unfoldable pub apply_job_validation_failure :
      Text → PayloadError → ℕ → List CronJob → List CronJob
  apply_job_validation_failure id e now jobs = elim (find_job id jobs) [
    | none ↦ jobs
    | some j ↦ set_job id (reschedule now (failed_job e j)) jobs
  ]

  -- The job after a run that ended at `done_ms` with the output or the error's text.
  unfoldable pub ran : ℕ → Result Text Text → CronJob → CronJob
  ran done_ms outcome j =
      let status : Text = elim outcome [ ok out ↦ codes "ok" | err e ↦ codes "error" ] in
      let message : Text = elim outcome [ ok out ↦ [] | err e ↦ e ] in
      let marked = record j {
        state = record (j.state) {
          last_run_at_ms = done_ms;
          last_status = status;
          last_error = message;
        };
      } in
      if is_at_schedule j.schedule then set_next 0 (record marked { enabled = false }) else marked

  -- The job list after `fire` has seen the end of a run.
  unfoldable pub finish_jobs : Text → ℕ → Result Text Text → List CronJob → List CronJob
  finish_jobs id done_ms outcome jobs = elim (find_job id jobs) [
    | none ↦ jobs
    | some j ↦
        let j' = ran done_ms outcome j in
        if j.delete_after_run
        then remove_job_at id jobs
        else if is_at_schedule j.schedule
        then set_job id j' jobs
        else set_job id (reschedule done_ms j') jobs
  ]

  -- The second half of `fire`, from the end of the run, with what it hands to `deliver`.
  unfoldable pub finish :
      CronJob → ℕ → Result Text Text → Bool → Service → Service × Option (CronJob × Text)
  finish job done_ms outcome saved s = (
    save saved (record s { jobs = finish_jobs job.id done_ms outcome s.jobs }),
    delivery_of job outcome (find_job job.id s.jobs),
  )

  -- The first half of `fire`: whether the job goes on to run.
  unfoldable pub begin : Unicode → CronJob → ℕ → Bool → Service → Service × Bool
  unfolding apply_job_validation_failure failed_job find_job set_job payload_error_text
      compute_next_schedule_run validate_payload save
  begin u job now saved s = elim (validate_payload u job.payload) [
    | none ↦ (s, true)
    | some e ↦
        (save saved (record s { jobs = apply_job_validation_failure job.id e now s.jobs }), false)
  ]

  -- `AddJob`, with the uuid of the new job. An error of `Next` leaves the list alone; a failed save
  -- is an error too, but the job stays in the list.
  unfoldable pub add_job :
      Text → Text → Schedule → Payload → ℕ → Bool → Service → Service × Result AddError CronJob
  add_job uuid name schedule payload now saved s =
      if not (validate g schedule)
      then (s, err bad_schedule)
      else elim (compute_next_schedule_run g schedule now) [
        | none ↦ (s, err no_next)
        | some n ↦
            let job = set_next n (new_cron_job uuid name schedule payload) in
            (
              save saved (record s { jobs = s.jobs ++ job ∷ [] }),
              if saved then ok job else err not_saved,
            )
      ]

  -- What `EnableJob` makes of the job.
  unfoldable pub enabled_job : Bool → ℕ → CronJob → CronJob
  enabled_job flag now j =
      let j' = record j { enabled = flag } in
      if not flag
      then set_next 0 j'
      else if j.state.next_run_at_ms == 0
      then reschedule (from_ms now j) j'
      else j'

  -- `EnableJob`; none if the job is not there.
  unfoldable pub enable_job : Text → Bool → ℕ → Bool → Service → Service × Option CronJob
  enable_job id flag now saved s = elim (find_job id s.jobs) [
    | none ↦ (s, none)
    | some j ↦
        let j' = enabled_job flag now j in
        (save saved (record s { jobs = set_job id j' s.jobs }), some j')
  ]

-- `RemoveJob`: whether there was such a job.
unfoldable pub remove_job : Text → Bool → Service → Service × Bool
remove_job id saved s = elim (find_job id s.jobs) [
  | none ↦ (s, false)
  | some j ↦ (save saved (record s { jobs = remove_job_at id s.jobs }), true)
]
