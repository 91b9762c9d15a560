-- ===== src/Cron/Restart.antt =====
-- A stop of the process between `checkAndFire` and the end of the runs, in
-- internal/plugins/trigger/cron/service.go: `Start` reads the file that `checkAndFire` wrote.
use mathlib.Core.Option
use maven.Base.{ℕ, ◌≡◌, refl, ap, ◌∙◌, Bool, true, false, not, ◌||◌, some, [], arith, ltb, map}
use maven.Base.Text.{Text}
use maven.Cron.Schedule.{
  Gronx, compute_next_schedule_run, is_at_schedule, whole_ms, reread-whole, IsDuration,
}
use maven.Cron.Job.{CronJob, reread_job}
use maven.Cron.Service.{
  Service, find_job, set_next, from_ms, is_due, disarm, fire_job, keep_jobs, check_and_fire,
  ensure_job, ensure_next_run, start, save, load, load-marshal,
}
use maven.Cron.Firing.{find_job-map, find_job-kept, find_job-ensured}

-- The service after a check at `now`, a stop, and a start at `later` from the file.
abbrev pub restarted : Gronx → ℕ → ℕ → Bool → Service → Service
restarted g now later saved s =
    let stopped = (check_and_fire now true s).0 in
    start g (load stopped.file) later saved (record { jobs = []; file = stopped.file })

module _ (g : Gronx) (now later : ℕ) (saved : Bool) (s : Service) where
  restarted_jobs :
      (restarted g now later saved s).jobs
      ≡ ensure_next_run g later (map reread_job (keep_jobs now s.jobs))
  unfolding start check_and_fire save
  restarted_jobs = by_saved saved
    where
      by_saved :
          (b : Bool)
          → (restarted g now later b s).jobs
            ≡ ensure_next_run g later (map reread_job (keep_jobs now s.jobs))
      by_saved true = rw (load-marshal (keep_jobs now s.jobs)) refl
      by_saved false = rw (load-marshal (keep_jobs now s.jobs)) refl

  find_restarted :
      (id : Text) (j : CronJob)
      → find_job id s.jobs ≡ some j
      → find_job id (restarted g now later saved s).jobs
        ≡ some (ensure_job g later (reread_job (fire_job now j)))
  find_restarted id j found =
      ap (find_job id) restarted_jobs
      ∙ find_job-ensured g later id (map reread_job (keep_jobs now s.jobs))
      ∙ ap (Option.map (ensure_job g later)) (
          find_job-map reread_job id (keep_jobs now s.jobs) (λ i. refl)
          ∙ ap (Option.map reread_job)
              (find_job-kept now id s.jobs ∙ ap (Option.map (fire_job now)) found))

  disabled_stays : (j : CronJob) → j.enabled ≡ false → ensure_job g later j ≡ j
  unfolding ensure_job
  disabled_stays j off = rw off

  not_due_disabled : (at : ℕ) (j : CronJob) → j.enabled ≡ false → is_due at j ≡ false
  unfolding is_due
  not_due_disabled at j off = rw off

  fired_at_disabled :
      (j : CronJob)
      → is_due now j ≡ true
      → is_at_schedule j.schedule ≡ true
      → (fire_job now j).enabled ≡ false
  unfolding fire_job disarm
  fired_at_disabled j due once = rw (due, once)

  -- A one-shot job that was fired is there after the restart and is never due again, so it runs at
  -- most once, if the check could write the file.
  pub at_most_once :
      (id : Text) (j : CronJob)
      → find_job id s.jobs ≡ some j
      → is_due now j ≡ true
      → is_at_schedule j.schedule ≡ true
      → (j' : CronJob) × (find_job id (restarted g now later saved s).jobs ≡ some j')
        × ((time : ℕ) → is_due time j' ≡ false)
  at_most_once id j found due once =
      let off = fired_at_disabled j due once in
      (
        reread_job (fire_job now j),
        find_restarted id j found ∙ ap some (disabled_stays (reread_job (fire_job now j)) off),
        λ time. not_due_disabled time (reread_job (fire_job now j)) off,
      )

  fired_cleared :
      (j : CronJob)
      → is_due now j ≡ true
      → is_at_schedule j.schedule ≡ false
      → fire_job now j ≡ set_next 0 j
  unfolding fire_job disarm
  fired_cleared j due again = rw (due, again)

  due-enabled : (j : CronJob) → is_due now j ≡ true → j.enabled ≡ true
  unfolding is_due
  due-enabled j due = ground arith

  cleared_rearmed :
      (j : CronJob) (n : ℕ)
      → j.enabled ≡ true
      → compute_next_schedule_run g j.schedule (from_ms later j) ≡ some n
      → ensure_job g later (set_next 0 j) ≡ set_next n j
  unfolding ensure_job from_ms
  cleared_rearmed j n on next =
      let guard : (not j.enabled || ltb 0 0) ≡ false = ap (λ b. not b || false) on in
      rw (guard, next) refl

  -- A recurring job whose run the stop cut off is planned anew, from its last run or, if it never
  -- ran, from the start, by its schedule as the file keeps it: an interval in whole milliseconds.
  pub lost_run_planned :
      (id : Text) (j : CronJob) (n : ℕ)
      → find_job id s.jobs ≡ some j
      → is_due now j ≡ true
      → is_at_schedule j.schedule ≡ false
      → IsDuration j.schedule
      → compute_next_schedule_run g (whole_ms j.schedule) (from_ms later j) ≡ some n
      → find_job id (restarted g now later saved s).jobs
        ≡ some (set_next n (record j { schedule = whole_ms j.schedule }))
  lost_run_planned id j n found due again fits next =
      let kept = reread-whole j.schedule fits in
      find_restarted id j found
      ∙ ap some (
          ap (λ i. ensure_job g later (reread_job i)) (fired_cleared j due again)
          ∙ (ap (λ sch. ensure_job g later (set_next 0 (record j { schedule = sch }))) kept
              ∙ cleared_rearmed (record j { schedule = whole_ms j.schedule }) n (due-enabled j due)
                  (unfold from_ms in next)))
