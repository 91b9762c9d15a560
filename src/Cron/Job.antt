-- ===== src/Cron/Job.antt =====
-- internal/plugins/trigger/cron/types.go and payload_validate.go.
use maven.Base.{
  ℕ, ◌≡◌, ◌≢◌, ◌⊎◌, ◌↔◌, refl, Bool, true, false, not, ◌||◌, Option, none, some, [], arith,
  if◌then◌else◌, is_empty,
}
use maven.Base.Text.{Text, codes, trim_space, text_eq}
use maven.Base.Unicode.{Unicode, to_lower}
use maven.Cron.Schedule.{
  Schedule, ScheduleJson, marshal_schedule, unmarshal_schedule, reread, unmarshal-marshal,
}

pub record Payload : Type 0 where
  pub message : Text
  pub deliver : Bool
  pub channel : Text
  pub to : Text

pub record JobState : Type 0 where
  pub next_run_at_ms : ℕ
  pub last_run_at_ms : ℕ
  pub last_status : Text
  pub last_error : Text

pub record CronJob : Type 0 where
  pub id : Text
  pub name : Text
  pub enabled : Bool
  pub schedule : Schedule
  pub payload : Payload
  pub state : JobState
  pub delete_after_run : Bool

-- The JSON form of a job, without the text.
pub record StoredJob : Type 0 where
  pub id : Text
  pub name : Text
  pub enabled : Bool
  pub schedule : ScheduleJson
  pub payload : Payload
  pub state : JobState
  pub delete_after_run : Bool

-- `CronJob.MarshalJSON`.
unfoldable pub marshal_job : CronJob → StoredJob
unfolding marshal_schedule
marshal_job j = record {
  id = j.id;
  name = j.name;
  enabled = j.enabled;
  schedule = marshal_schedule j.schedule;
  payload = j.payload;
  state = j.state;
  delete_after_run = j.delete_after_run;
}

-- `CronJob.UnmarshalJSON`; none for an error.
unfoldable pub unmarshal_job : StoredJob → Option CronJob
unfolding unmarshal_schedule
unmarshal_job raw = elim (unmarshal_schedule raw.schedule) [
  | none ↦ none
  | some sch ↦ some (record {
    id = raw.id;
    name = raw.name;
    enabled = raw.enabled;
    schedule = sch;
    payload = raw.payload;
    state = raw.state;
    delete_after_run = raw.delete_after_run;
  })
]

-- What is read back of a job.
abbrev pub reread_job : CronJob → CronJob
reread_job j = record j { schedule = reread j.schedule }

pub unmarshal-marshal_job : (j : CronJob) → unmarshal_job (marshal_job j) ≡ some (reread_job j)
unfolding unmarshal_job marshal_job
unmarshal-marshal_job j = rw (unmarshal-marshal j.schedule, unmarshal_job) refl

-- `NewCronJob`, with the uuid that `uuid.NewString` gives.
unfoldable pub new_cron_job : Text → Text → Schedule → Payload → CronJob
new_cron_job uuid name schedule payload = record {
  id = uuid;
  name = name;
  enabled = true;
  schedule = schedule;
  payload = payload;
  state = record { next_run_at_ms = 0; last_run_at_ms = 0; last_status = []; last_error = [] };
  delete_after_run = false;
}

-- `reservedRecipients`, already in lower case.
abbrev pub reserved_recipient : Text
reserved_recipient = codes "deliver_to_incoming_chat"

-- `IsReservedRecipient`.
unfoldable pub is_reserved_recipient : Unicode → Text → Bool
unfolding text_eq to_lower trim_space
is_reserved_recipient u to = text_eq (to_lower u (trim_space to)) reserved_recipient

pub data PayloadError : Type 0 where
  route_without_deliver deliver_without_route reserved : PayloadError

-- `Payload.Validate`; none for no error.
unfoldable pub validate_payload : Unicode → Payload → Option PayloadError
validate_payload u p =
    let ch = trim_space p.channel in
    let to = trim_space p.to in
    if not p.deliver
    then (if not (is_empty ch) || not (is_empty to) then some route_without_deliver else none)
    else if is_empty ch || is_empty to
    then some deliver_without_route
    else if is_reserved_recipient u to
    then some reserved
    else none

-- `err.Error()` of a payload error.
unfoldable pub payload_error_text : PayloadError → Text
payload_error_text route_without_deliver = codes "cron: deliver=false requires empty channel and to"
payload_error_text deliver_without_route =
    codes "cron: deliver=true requires non-empty channel and to"
payload_error_text reserved = codes "cron: invalid recipient placeholder in to"

-- A payload that delivers names a channel and a recipient that is no placeholder, and one that does
-- not names neither.
abbrev pub Routed : Unicode → Payload → Type 0
Routed u p =
    ((p.deliver ≡ true)
      × (trim_space p.channel ≢ [])
      × (trim_space p.to ≢ [])
      × (is_reserved_recipient u (trim_space p.to) ≡ false))
    ⊎ ((p.deliver ≡ false) × (trim_space p.channel ≡ []) × (trim_space p.to ≡ []))

-- `Validate` accepts exactly the routed payloads.
pub validate_payload_iff : (u : Unicode) (p : Payload) → (validate_payload u p ≡ none) ↔ Routed u p
unfolding validate_payload
validate_payload_iff u p = (λ h. ground arith, λ r. ground arith)
