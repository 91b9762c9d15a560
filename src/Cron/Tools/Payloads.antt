-- ===== src/Cron/Tools/Payloads.antt =====
-- internal/plugins/trigger/cron/add.go: the payload of a job that is added.
use maven.Base.{
  ℕ, Bool, not, ◌&&◌, ◌||◌, none, ◌+◌, ◌==◌, ◌≡◌, refl, inl, inr, Bool-cases, Option-cases,
  is_empty, is_some,
}
use maven.Base.Result.{Result, ok, err}
use maven.Base.Text.{Text}
use maven.Base.Unicode.{Unicode}
use maven.Cron.Schedule.{Gronx, Schedule, compute_next_schedule_run, validate}
use maven.Cron.Job.{CronJob, validate_payload, new_cron_job, Routed, validate_payload_iff}
use maven.Cron.Service.{Service, add_job}
use maven.Cron.Tools.{
  AddParams, AddDuration, AddToolError, payload_of, added, add_trimmed, schedule_of, count,
}

-- The tests of `Add` on trimmed parameters.
abbrev one_schedule : AddParams → Bool
one_schedule p =
    count (not (is_empty p.expr)) + count (not (is_empty p.in_text)) + count (is_some p.at_ms) == 1

abbrev unrouted : AddParams → Bool
unrouted p = (payload_of p).deliver && (is_empty p.channel || is_empty p.to)

module _ (u : Unicode) (g : Gronx) (add_duration : AddDuration) where
  -- A job as `Add` makes it from trimmed parameters.
  pub record Made (p : AddParams) (job : CronJob) : Type 0 where
    pub routed : Routed u job.payload
    pub carries : job.payload ≡ payload_of p

  abbrev pub MadeIfAny : AddParams → Service × Result AddToolError CronJob → Type 0
  MadeIfAny p (s, err e) = Unit
  MadeIfAny p (s, ok job) = Made p job

  added-Made :
      (p : AddParams) (uuid : Text) (sch : Schedule) (now : ℕ) (saved : Bool) (s : Service)
      → validate_payload u (payload_of p) ≡ none
      → MadeIfAny p (added (add_job g uuid p.name sch (payload_of p) now saved s))
  unfolding add_job new_cron_job
  added-Made p uuid sch now saved s v =
      let job = new_cron_job uuid p.name sch (payload_of p) in
      elim (Bool-cases (validate g sch)) [
        | inr e ↦ rw e tt
        | inl e ↦ elim (Option-cases (compute_next_schedule_run g sch now)) [
          | inl n ↦ rw (e, n) tt
          | inr (next, n) ↦ elim (Bool-cases saved) [
            | inr w ↦ rw (e, n, w) tt
            | inl w ↦
                rw (e, n, w)
                  (record { routed = (validate_payload_iff u (payload_of p)).0 v; carries = refl })
          ]
        ]
      ]

  pub add_trimmed-Made :
      (uuid : Text) (now : ℕ) (saved : Bool) (s : Service) (p : AddParams)
      → MadeIfAny p (add_trimmed u g add_duration uuid now saved s p)
  unfolding add_trimmed
  add_trimmed-Made uuid now saved s p = elim (Bool-cases (is_empty p.name)) [
    | inl a ↦ rw a tt
    | inr a ↦ elim (Bool-cases (is_empty p.message)) [
      | inl b ↦ rw (a, b) tt
      | inr b ↦ elim (Bool-cases (one_schedule p)) [
        | inr c ↦ rw (a, b, c) tt
        | inl c ↦ elim (Option-cases (schedule_of add_duration now p)) [
          | inl d ↦ rw (a, b, c, d) tt
          | inr (sch, d) ↦ elim (Bool-cases (unrouted p)) [
            | inl e ↦ rw (a, b, c, d, e) tt
            | inr e ↦ elim (Option-cases (validate_payload u (payload_of p))) [
              | inr (f, v) ↦ rw (a, b, c, d, e, v) tt
              | inl v ↦ rw (a, b, c, d, e, v) (added-Made p uuid sch now saved s v)
            ]
          ]
        ]
      ]
    ]
  ]
