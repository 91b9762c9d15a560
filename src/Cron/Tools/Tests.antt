-- ===== src/Cron/Tools/Tests.antt =====
-- A run of the cron tools of internal/plugins/trigger/cron, and their theorem at it.
use maven.Base.{ℕ, true, false, none, some, [], ◌∷◌, ◌≡◌, refl, ◌+◌}
use maven.Base.Result.{ok}
use maven.Base.Text.{codes}
use maven.Base.Unicode.{ascii_only}
use maven.Turnctx.{Context, with_inbound}
use maven.Cron.Schedule.{Gronx, at, validate, compute_next_schedule_run}
use maven.Cron.Job.{CronJob, marshal_job, new_cron_job}
use maven.Cron.Service.{Service, save}
use maven.Cron.Tools.{ToolInput, AddDuration, add_from_tool_map}
use maven.Cron.Tools.Delivery.{Delivered, wants_incoming, add_from_tool_map-Delivered}

abbrev ticks : Gronx
ticks = record { is_valid = λ e. true; next_tick = λ e after. some (after + 1) }

abbrev in_a_minute : AddDuration
in_a_minute t now = some (now + 60000)

abbrev ctx : Context ℕ
ctx = with_inbound none (codes "telegram") (codes "42")

abbrev reminder : ToolInput
reminder = record {
  name = codes "tea";
  message = codes "drink tea";
  expr = [];
  in_text = codes "1m";
  at_ms = none;
  deliver = false;
  deliver_key_present = false;
  deliver_to_incoming_chat = false;
  channel = [];
  to = [];
}

abbrev empty_service : Service
empty_service = record { jobs = []; file = [] }

abbrev made : CronJob
made = record {
  id = codes "u1";
  name = codes "tea";
  enabled = true;
  schedule = at (some 61000);
  payload = record {
    message = codes "drink tea";
    deliver = true;
    channel = codes "telegram";
    to = codes "42";
  };
  state = record { next_run_at_ms = 61000; last_run_at_ms = 0; last_status = []; last_error = [] };
  delete_after_run = false;
}

delivers_to_chat :
    add_from_tool_map ascii_only ticks in_a_minute ctx (codes "u1") 1000 true empty_service reminder
    ≡ (record { jobs = made ∷ []; file = marshal_job made ∷ [] }, ok made)
unfolding add_from_tool_map with_inbound validate compute_next_schedule_run save new_cron_job
delivers_to_chat = refl

add_from_tool_map-Delivered_example :
    Delivered ctx ascii_only ticks in_a_minute (wants_incoming ctx reminder) reminder made
add_from_tool_map-Delivered_example =
    add_from_tool_map-Delivered ctx ascii_only ticks in_a_minute (codes "u1") 1000 true
      empty_service (record { jobs = made ∷ []; file = marshal_job made ∷ [] }) reminder made
      delivers_to_chat
