-- ===== src/Cron/Runs.antt =====
-- The steps of the service of internal/plugins/trigger/cron/service.go in any order: the loop, the
-- goroutines of the runs, and the calls of the tools.
use maven.Base.{ℕ, Bool, List, [], ◌∷◌}
use maven.Base.Result.{Result}
use maven.Base.Text.{Text}
use maven.Base.Unicode.{Unicode}
use maven.Cron.Schedule.{Gronx, Schedule}
use maven.Cron.Job.{Payload, CronJob}
use maven.Cron.Service.{Service, check_and_fire, finish, begin, add_job, enable_job, remove_job}

-- What happens next: a check of the loop, the start and the end of a goroutine's run, and the calls
-- `AddJob`, `EnableJob` and `RemoveJob`.
pub data Event : Type 0 where
  ticks : ℕ → Bool → Event
  begins : CronJob → ℕ → Bool → Event
  ends : CronJob → ℕ → Result Text Text → Bool → Event
  adds : Text → Text → Schedule → Payload → ℕ → Bool → Event
  enables : Text → Bool → ℕ → Bool → Event
  removes : Text → Bool → Event

module _ (g : Gronx) (u : Unicode) where
  unfoldable pub step : Service → Event → Service
  step s (ticks now saved) = (check_and_fire now saved s).0
  step s (begins job now saved) = (begin g u job now saved s).0
  step s (ends job done_ms outcome saved) = (finish g job done_ms outcome saved s).0
  step s (adds uuid name sch payload now saved) = (add_job g uuid name sch payload now saved s).0
  step s (enables id flag now saved) = (enable_job g id flag now saved s).0
  step s (removes id saved) = (remove_job id saved s).0

  unfoldable pub steps : Service → List Event → Service
  unfolding step
  steps s [] = s
  steps s (e ∷ es) = steps (step s e) es
