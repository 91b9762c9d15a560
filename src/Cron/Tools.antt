-- ===== src/Cron/Tools.antt =====
-- internal/plugins/trigger/cron/input.go and add.go: from the arguments of the cron tools to a job.
-- The reading of the JSON values and the message id, which `Add` does not use, are left out; package
-- time is a parameter.
pub mod Payloads
pub mod Delivery
pub mod Tests
use maven.Base.{
  ℕ, Bool, true, false, not, ◌&&◌, ◌||◌, Option, none, some, List, [], ◌+◌, ◌==◌, if◌then◌else◌,
  is_empty, is_some,
}
use maven.Base.Result.{Result, ok, err}
use maven.Base.Text.{Text, trim_space}
use maven.Base.Unicode.{Unicode}
use maven.Turnctx.{Context, TurnContext, from}
use maven.Cron.Schedule.{Gronx, Schedule, cron, at}
use maven.Cron.Job.{Payload, PayloadError, CronJob, validate_payload, is_reserved_recipient}
use maven.Cron.Service.{Service, AddError, add_job}

-- `CronToolInput`; `at_ms` is none where `HasAtMs` is false.
pub record ToolInput : Type 0 where
  pub name : Text
  pub message : Text
  pub expr : Text
  pub in_text : Text
  pub at_ms : Option ℕ
  pub deliver : Bool
  pub deliver_key_present : Bool
  pub deliver_to_incoming_chat : Bool
  pub channel : Text
  pub to : Text

-- `AddParams`.
pub record AddParams : Type 0 where
  pub name : Text
  pub message : Text
  pub expr : Text
  pub in_text : Text
  pub at_ms : Option ℕ
  pub deliver : Bool
  pub channel : Text
  pub to : Text
  pub deliver_to_incoming_chat : Bool

pub data PolicyError : Type 0 where
  both_deliveries channel_with_incoming no_conversation route_missing reserved_to route_unused :
      PolicyError

abbrev pub plain_params : ToolInput → AddParams
plain_params input = record {
  name = input.name;
  message = input.message;
  expr = input.expr;
  in_text = input.in_text;
  at_ms = input.at_ms;
  deliver = input.deliver;
  channel = input.channel;
  to = input.to;
  deliver_to_incoming_chat = input.deliver_to_incoming_chat;
}

module _ {V : Type 0} where
  -- `ApplyGatewayDeliveryDefaults`.
  unfoldable pub apply_gateway_delivery_defaults : Context V → ToolInput → ToolInput
  apply_gateway_delivery_defaults ctx input =
      if input.deliver_key_present
        || (input.deliver_to_incoming_chat
            || (not (is_empty input.channel) || not (is_empty input.to)))
      then input
      else if is_some (from ctx)
      then record input { deliver_to_incoming_chat = true }
      else input

  -- `ValidateDeliveryPolicy`; none is no error.
  unfoldable pub validate_delivery_policy : Unicode → Context V → ToolInput → Option PolicyError
  validate_delivery_policy u ctx input =
      let ch = trim_space input.channel in
      let to = trim_space input.to in
      if input.deliver_to_incoming_chat && input.deliver
      then some both_deliveries
      else if input.deliver_to_incoming_chat
      then (if not (is_empty ch) || not (is_empty to)
          then some channel_with_incoming
          else if is_some (from ctx)
          then none
          else some no_conversation)
      else if input.deliver
      then (if is_empty ch || is_empty to
          then some route_missing
          else if is_reserved_recipient u to
          then some reserved_to
          else none)
      else if not (is_empty ch) || not (is_empty to)
      then some route_unused
      else none

  -- `ToAddParams`.
  unfoldable pub to_add_params : Context V → ToolInput → AddParams
  to_add_params ctx input =
      if input.deliver_to_incoming_chat
      then elim (from ctx) [
        | none ↦ plain_params input
        | some tc ↦ record (plain_params input) { channel = tc.channel; to = tc.chat_id }
      ]
      else plain_params input

-- `time.ParseDuration`, rounded to milliseconds and added to a time; none for an error.
abbrev pub AddDuration : Type 0
AddDuration = Text → ℕ → Option ℕ

pub data AddToolError : Type 0 where
  name_required message_required one_schedule_required bad_in route_required : AddToolError
  bad_payload : PayloadError → AddToolError
  not_added : AddError → AddToolError
  policy : PolicyError → AddToolError

abbrev pub count : Bool → ℕ
count true = 1
count false = 0

abbrev pub added : Service × Result AddError CronJob → Service × Result AddToolError CronJob
added (s, ok job) = (s, ok job)
added (s, err e) = (s, err (not_added e))

-- The parameters of `Add`, trimmed.
unfoldable pub trimmed_params : AddParams → AddParams
unfolding trim_space
trimmed_params p = record p {
  name = trim_space p.name;
  message = trim_space p.message;
  expr = trim_space p.expr;
  in_text = trim_space p.in_text;
  channel = trim_space p.channel;
  to = trim_space p.to;
}

abbrev pub payload_of : AddParams → Payload
payload_of p = record {
  message = p.message;
  deliver = p.deliver || p.deliver_to_incoming_chat;
  channel = p.channel;
  to = p.to;
}

-- The schedule of `Add`, of trimmed parameters of which exactly one is there.
unfoldable pub schedule_of : AddDuration → ℕ → AddParams → Option Schedule
schedule_of add_duration now p =
    if not (is_empty p.expr)
    then some (cron p.expr)
    else if not (is_empty p.in_text)
    then elim (add_duration p.in_text now) [ none ↦ none | some ms ↦ some (at (some ms)) ]
    else some (at p.at_ms)

module _ (u : Unicode) (g : Gronx) (add_duration : AddDuration) where
  unfoldable pub add_trimmed :
      Text → ℕ → Bool → Service → AddParams → Service × Result AddToolError CronJob
  add_trimmed uuid now saved s p =
      let payload = payload_of p in
      if is_empty p.name
      then (s, err name_required)
      else if is_empty p.message
      then (s, err message_required)
      else if not (
          count (not (is_empty p.expr)) + count (not (is_empty p.in_text)) + count (is_some p.at_ms)
          == 1)
      then (s, err one_schedule_required)
      else elim (schedule_of add_duration now p) [
        | none ↦ (s, err bad_in)
        | some sch ↦
            if payload.deliver && (is_empty p.channel || is_empty p.to)
            then (s, err route_required)
            else elim (validate_payload u payload) [
              | some e ↦ (s, err (bad_payload e))
              | none ↦ added (add_job g uuid p.name sch payload now saved s)
            ]
      ]

  -- `Add`.
  unfoldable pub add : Text → ℕ → Bool → Service → AddParams → Service × Result AddToolError CronJob
  unfolding add_trimmed schedule_of trimmed_params validate_payload add_job
  add uuid now saved s p = add_trimmed uuid now saved s (trimmed_params p)

  module _ {V : Type 0} where
    abbrev pub add_checked :
        Context V
        → Text
        → ℕ
        → Bool
        → Service
        → ToolInput
        → Option PolicyError
        → Service × Result AddToolError CronJob
    add_checked ctx uuid now saved s input (some e) = (s, err (policy e))
    add_checked ctx uuid now saved s input none = add uuid now saved s (to_add_params ctx input)

    -- `AddFromToolMap` behind the reading of the map.
    unfoldable pub add_from_tool_map :
        Context V → Text → ℕ → Bool → Service → ToolInput → Service × Result AddToolError CronJob
    unfolding add apply_gateway_delivery_defaults validate_delivery_policy to_add_params from
        is_reserved_recipient trim_space
    add_from_tool_map ctx uuid now saved s input =
        let in' = apply_gateway_delivery_defaults ctx input in
        add_checked ctx uuid now saved s in' (validate_delivery_policy u ctx in')
