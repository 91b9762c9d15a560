-- ===== src/Gateway/Tests.antt =====
-- Runs of internal/gateway/apply.go, and its theorem at one.
use maven.Base.{ℕ, true, none, some, [], ◌∷◌, ◌≡◌, refl}
use maven.Base.Text.{Text, codes, text_eq}
use maven.Channels.Manager.{wanted, invalid}
use maven.Channels.Tests.{ops, fresh}
use maven.Gateway.{Gateway, Reading, apply_config}

-- A gateway that runs with the runtime 1 and the cron trigger.
abbrev running : Gateway Text ℕ ℕ ℕ Text
running = record {
  workspace = some (codes "/w");
  manager = fresh;
  runtime = some 1;
  triggers = codes "cron" ∷ [];
  closed_runtimes = [];
}

abbrev reading : Reading Text ℕ ℕ ℕ Text
reading = record {
  new_workspace = codes "/w";
  level_ok = true;
  cron_ok = true;
  prompt_ok = true;
  slashes = some [];
  factory = some 2;
  channels = wanted (some (codes "web") ∷ []);
  new_triggers = codes "cron" ∷ codes "heartbeat" ∷ [];
  trigger_error = λ t. none;
}

swaps : (apply_config ops reading running).0.closed_runtimes ≡ 1 ∷ []
unfolding apply_config text_eq
swaps = refl

-- A reload of an invalid configuration: the new runtime is closed, and no trigger runs any more.
bad_reload :
    (apply_config ops (record reading { channels = invalid }) running).0
    ≡ record running { triggers = []; closed_runtimes = 2 ∷ [] }
unfolding apply_config text_eq
bad_reload = refl
