-- ===== src/Cron/Tools/Delivery.antt =====
-- internal/plugins/trigger/cron/add.go and input.go: where a job made by a tool delivers.
use maven.Base.{
  ℕ, Bool, true, false, not, ◌&&◌, ◌||◌, none, some, ◌≡◌, ◌≢◌, refl, ◌∙◌, subst, ap, arith, inl,
  inr, Bool-cases, Option-cases, is_empty, is_some,
}
use maven.Base.Result.{Result, ok, err}
use maven.Base.Text.{Text, trim_space}
use maven.Base.Unicode.{Unicode}
use maven.Turnctx.{Context, TurnContext, from}
use maven.Turnctx.Overlay.{from-IsReady}
use maven.Cron.Schedule.{Gronx}
use maven.Cron.Job.{CronJob, Routed}
use maven.Cron.Service.{Service}
use maven.Cron.Tools.Payloads.{Made, MadeIfAny, add_trimmed-Made}
use maven.Cron.Tools.{
  ToolInput, AddDuration, AddToolError, to_add_params, plain_params, trimmed_params, payload_of,
  add_trimmed, add, add_from_tool_map, apply_gateway_delivery_defaults, validate_delivery_policy,
}

or_false : (a b : Bool) → b ≡ false → (a || b) ≡ a
or_false a b h = ground arith

or_true_right : (a b : Bool) → b ≡ true → (a || b) ≡ true
or_true_right a b h = ground arith

module _ {V : Type 0} (ctx : Context V) where
  defaults-keep :
      (input : ToolInput)
      → ((apply_gateway_delivery_defaults ctx input).deliver ≡ input.deliver)
        × ((apply_gateway_delivery_defaults ctx input).channel ≡ input.channel)
        × ((apply_gateway_delivery_defaults ctx input).to ≡ input.to)
  unfolding apply_gateway_delivery_defaults
  defaults-keep input =
      elim (Bool-cases (
        input.deliver_key_present
        || (input.deliver_to_incoming_chat
            || (not (is_empty input.channel) || not (is_empty input.to))))) [
              | inl a ↦ rw a (refl, refl, refl)
              | inr a ↦ elim (Bool-cases (is_some (from ctx))) [
                | inl b ↦ rw (a, b) (refl, refl, refl)
                | inr b ↦ rw (a, b) (refl, refl, refl)
              ]
            ]

  -- Whether a job of the input is for the incoming chat.
  abbrev pub wants_incoming : ToolInput → Bool
  wants_incoming input =
      input.deliver_to_incoming_chat
      || (not input.deliver_key_present
          && (is_empty input.channel && (is_empty input.to && is_some (from ctx))))

  defaults-incoming :
      (input : ToolInput)
      → (apply_gateway_delivery_defaults ctx input).deliver_to_incoming_chat ≡ wants_incoming input
  unfolding apply_gateway_delivery_defaults
  defaults-incoming input = ground arith

  -- An input for the incoming chat passes the policy only in a conversation.
  policy-conversation :
      (u : Unicode) (input : ToolInput)
      → input.deliver_to_incoming_chat ≡ true
      → validate_delivery_policy u ctx input ≡ none
      → from ctx ≢ none
  unfolding validate_delivery_policy
  policy-conversation u input flag valid missing = ground arith

  params-incoming :
      (input : ToolInput) (tc : TurnContext V)
      → input.deliver_to_incoming_chat ≡ true
      → from ctx ≡ some tc
      → ((to_add_params ctx input).deliver_to_incoming_chat ≡ true)
        × ((to_add_params ctx input).channel ≡ tc.channel)
        × ((to_add_params ctx input).to ≡ tc.chat_id)
  unfolding to_add_params
  params-incoming input tc flag e = rw (flag, e) (flag, refl, refl)

  params-plain :
      (input : ToolInput)
      → input.deliver_to_incoming_chat ≡ false
      → to_add_params ctx input ≡ plain_params input
  unfolding to_add_params
  params-plain input flag = rw flag refl

  module _ (u : Unicode) (g : Gronx) (add_duration : AddDuration) where
    -- Where a job of the input delivers that is for the incoming chat if `incoming_chat` holds.
    pub record Delivered (incoming_chat : Bool) (input : ToolInput) (job : CronJob) : Type 0 where
      pub routed : Routed u job.payload
      pub incoming :
          incoming_chat ≡ true
          → (tc : TurnContext V) × (from ctx ≡ some tc)
            × (job.payload.deliver ≡ true)
            × (job.payload.channel ≡ tc.channel)
            × (job.payload.to ≡ tc.chat_id)
      pub explicit :
          incoming_chat ≡ false
          → (job.payload.deliver ≡ input.deliver)
            × (job.payload.channel ≡ trim_space input.channel)
            × (job.payload.to ≡ trim_space input.to)

    Made-Delivered :
        (input : ToolInput) (job : CronJob)
        → validate_delivery_policy u ctx input ≡ none
        → Made u g add_duration (trimmed_params (to_add_params ctx input)) job
        → Delivered input.deliver_to_incoming_chat input job
    unfolding trimmed_params
    Made-Delivered input job valid made = record {
      routed = made.routed;
      incoming = λ flag. elim (Option-cases (from ctx)) [
        | inl missing ↦ absurd (policy-conversation u input flag valid missing)
        | inr (tc, e) ↦
            let p = params-incoming input tc flag e in
            let ready = from-IsReady ctx tc e in
            (
              tc,
              e,
              ap (λ q. q.deliver) made.carries ∙ or_true_right _ _ p.0,
              ap (λ q. q.channel) made.carries ∙ (ap trim_space p.1 ∙ ready.channel_filled.trimmed),
              ap (λ q. q.to) made.carries ∙ (ap trim_space p.2 ∙ ready.chat_filled.trimmed),
            )
      ];
      explicit = λ flag.
          let p = params-plain input flag in
          (
            ap (λ q. q.deliver) made.carries
                ∙ (ap (λ q. (payload_of (trimmed_params q)).deliver) p ∙ or_false _ _ flag),
            ap (λ q. q.channel) made.carries ∙ ap (λ q. trim_space q.channel) p,
            ap (λ q. q.to) made.carries ∙ ap (λ q. trim_space q.to) p,
          );
    }

    abbrev DeliveredIfAny : ToolInput → Service × Result AddToolError CronJob → Type 0
    DeliveredIfAny input (s, err e) = Unit
    DeliveredIfAny input (s, ok job) = Delivered input.deliver_to_incoming_chat input job

    MadeIfAny-DeliveredIfAny :
        (input : ToolInput) (r : Service × Result AddToolError CronJob)
        → validate_delivery_policy u ctx input ≡ none
        → MadeIfAny u g add_duration (trimmed_params (to_add_params ctx input)) r
        → DeliveredIfAny input r
    MadeIfAny-DeliveredIfAny input (s, err e) valid made = tt
    MadeIfAny-DeliveredIfAny input (s, ok job) valid made = Made-Delivered input job valid made

    tool-DeliveredIfAny :
        (uuid : Text) (now : ℕ) (saved : Bool) (s : Service) (input : ToolInput)
        → DeliveredIfAny
            (apply_gateway_delivery_defaults ctx input)
            (add_from_tool_map u g add_duration ctx uuid now saved s input)
    unfolding add_from_tool_map add
    tool-DeliveredIfAny uuid now saved s input =
        let in' = apply_gateway_delivery_defaults ctx input in
        elim (Option-cases (validate_delivery_policy u ctx in')) [
          | inr (e, v) ↦ rw v tt
          | inl v ↦ rw v (
              MadeIfAny-DeliveredIfAny in'
                (add_trimmed u g add_duration uuid now saved s
                  (trimmed_params (to_add_params ctx in')))
                v
                (add_trimmed-Made u g add_duration uuid now saved s
                  (trimmed_params (to_add_params ctx in'))))
        ]

    -- The defaults decide on the incoming chat and leave the route of the input alone.
    undefaulted :
        (input : ToolInput) (job : CronJob)
        → Delivered
            (apply_gateway_delivery_defaults ctx input).deliver_to_incoming_chat
            (apply_gateway_delivery_defaults ctx input)
            job
        → Delivered (wants_incoming input) input job
    undefaulted input job d =
        let kept = defaults-keep input in
        let decided = defaults-incoming input in
        record {
          routed = d.routed;
          incoming = λ h. d.incoming (decided ∙ h);
          explicit = λ h.
              let x = d.explicit (decided ∙ h) in
              (x.0 ∙ kept.0, x.1 ∙ ap trim_space kept.1, x.2 ∙ ap trim_space kept.2);
        }

    -- A job that the tool makes has a payload that the service accepts. It is for the incoming chat
    -- if the input asks for that, or if the input names no channel, no recipient and no `deliver`
    -- and the context carries a turn: then the context does carry a turn, and the job delivers to
    -- its channel and chat. Otherwise it delivers exactly if the input says so, with the trimmed
    -- channel and recipient of the input.
    pub add_from_tool_map-Delivered :
        (uuid : Text) (now : ℕ) (saved : Bool) (s s' : Service) (input : ToolInput) (job : CronJob)
        → add_from_tool_map u g add_duration ctx uuid now saved s input ≡ (s', ok job)
        → Delivered (wants_incoming input) input job
    add_from_tool_map-Delivered uuid now saved s s' input job h = undefaulted input job (
        subst (DeliveredIfAny (apply_gateway_delivery_defaults ctx input)) h
          (tool-DeliveredIfAny uuid now saved s input))
