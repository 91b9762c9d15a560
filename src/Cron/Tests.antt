-- ===== src/Cron/Tests.antt =====
-- Runs of the service of internal/plugins/trigger/cron, and its theorems at inputs.
use maven.Base.{
  ℕ, ◌+◌, ◌*◌, ◌/◌, ◌≡◌, ◌≢◌, ◌↔◌, refl, true, false, none, some, List, [], ◌∷◌, arith, All,
}
use maven.Base.Result.{ok}
use maven.Base.Text.{Text, codes}
use maven.Base.Unicode.{ascii_only}
use maven.Cron.Schedule.{
  Gronx, TicksLater, Schedule, every, at, compute_next_schedule_run, is_at_schedule, whole_ms,
}
use maven.Cron.Job.{
  Payload, CronJob, validate_payload, validate_payload_iff, Routed, is_reserved_recipient, reserved,
}
use maven.Cron.Service.{Service, find_job, set_next, from_ms, is_due, check_and_fire, finish}
use maven.Cron.Delay.{next_delay, Delay, next_delay-Delay}
use maven.Cron.Firing.{Fired, check_and_fire-Fired}
use maven.Cron.Restart.{restarted, at_most_once, lost_run_planned}
use maven.Cron.Runs.{Event, ticks, ends, removes, steps}
use maven.Cron.Quiet.Steps.{disabled_never_fires}
use maven.Cron.Finish.{Finished, finish-Finished}

-- Every expression ticks at the next full second.
abbrev seconds : Gronx
seconds = record { is_valid = λ e. true; next_tick = λ e after. some ((after / 1000 + 1) * 1000) }

seconds-TicksLater : TicksLater seconds
seconds-TicksLater expr after n e = ground arith

abbrev quiet_payload : Payload
quiet_payload = record { message = codes "hi"; deliver = false; channel = []; to = [] }

abbrev job_of : Text → Schedule → ℕ → CronJob
job_of id sch next = record {
  id = id;
  name = id;
  enabled = true;
  schedule = sch;
  payload = quiet_payload;
  state = record { next_run_at_ms = next; last_run_at_ms = 0; last_status = []; last_error = [] };
  delete_after_run = false;
}

abbrev once : CronJob
once = job_of (codes "a") (at (some 500)) 500

abbrev often : CronJob
often = job_of (codes "b") (every 2500000) 700

abbrev service : Service
service = record { jobs = once ∷ often ∷ []; file = [] }

next_delay_runs : next_delay 450 service.jobs ≡ 50000000
unfolding next_delay
next_delay_runs = refl

-- A job in 400 years: the product wraps, and the loop does not sleep.
next_delay_wraps :
    next_delay 0 (job_of (codes "far") (at (some 13000000000000)) 13000000000000 ∷ []) ≡ 0
unfolding next_delay
next_delay_wraps = refl

fires_once_only : (check_and_fire 600 true service).1 ≡ record once { enabled = false } ∷ []
unfolding check_and_fire
fires_once_only = refl

reserved_refused :
    validate_payload ascii_only (record quiet_payload {
      deliver = true;
      channel = codes "telegram";
      to = codes " Deliver_To_Incoming_Chat";
    })
    ≡ some reserved
unfolding validate_payload is_reserved_recipient
reserved_refused = refl

check_and_fire-Fired_example :
    Fired 600 service.jobs
      (check_and_fire 600 true service).0.jobs
      (check_and_fire 600 true service).1
check_and_fire-Fired_example = check_and_fire-Fired 600 true service

at_most_once_example :
    (j' : CronJob) × (find_job (codes "a") (restarted seconds 600 900 true service).jobs ≡ some j')
    × ((time : ℕ) → is_due time j' ≡ false)
at_most_once_example =
    at_most_once seconds 600 900 true service (codes "a") once (unfold find_job in refl)
      (unfold is_due in refl) (unfold is_at_schedule in refl)

lost_run_planned_example :
    find_job (codes "b") (restarted seconds 800 900 true service).jobs
    ≡ some (set_next 902 (record often { schedule = whole_ms often.schedule }))
lost_run_planned_example =
    lost_run_planned seconds 800 900 true service (codes "b") often 902 (unfold find_job in refl)
      (unfold is_due in refl) (unfold is_at_schedule in refl) (omega arith)
      (unfold compute_next_schedule_run from_ms whole_ms in refl)

abbrev off : Service
off = record { jobs = record once { enabled = false } ∷ often ∷ []; file = [] }

abbrev history : List Event
history = ticks 800 true ∷ ends often 810 (ok (codes "done")) true ∷ removes (codes "c") false ∷ []

disabled_never_fires_example :
    All (λ j. j.id ≢ codes "a") (check_and_fire 2000 true (steps seconds ascii_only off history)).1
disabled_never_fires_example =
    disabled_never_fires seconds ascii_only (codes "a") off history 2000 true
      ((λ e. refl), ((λ e. absurd (ground arith)), tt)) (tt, (tt, (tt, tt)))

finish-Finished_example :
    Finished seconds often 810
      (ok (codes "done"))
      service.jobs
      (finish seconds often 810 (ok (codes "done")) true service).0.jobs
      (finish seconds often 810 (ok (codes "done")) true service).1
finish-Finished_example = finish-Finished seconds often 810 (ok (codes "done")) true service

validate_payload_iff_example :
    (validate_payload ascii_only quiet_payload ≡ none) ↔ Routed ascii_only quiet_payload
validate_payload_iff_example = validate_payload_iff ascii_only quiet_payload

next_delay-Delay_example : Delay 450 service.jobs (next_delay 450 service.jobs)
next_delay-Delay_example = next_delay-Delay 450 service.jobs
