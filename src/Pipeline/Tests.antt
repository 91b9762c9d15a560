-- ===== src/Pipeline/Tests.antt =====
-- Runs of internal/kernel/pipeline, and its theorems at them.
use maven.Base.{All, arith, ℕ, Bool, true, false, none, some, List, [], ◌∷◌, ◌≡◌, refl, map}
use maven.Base.Result.{ok}
use maven.Base.Text.{Text, codes, text_eq}
use maven.Base.Unicode.{ascii_only}
use maven.Session.{missing, current_mode}
use maven.Slash.Registry.{Registry}
use maven.Slash.Dispatch as Dispatch
use maven.Slash.Dispatch.Compact.{handle_compact}
use maven.Postaction.{Handler}
use maven.Postaction.Compaction.{OthersStay}
use maven.Bus.Messages.{InboundMessage, RoutingHints, stable_route_key}
use maven.Pipeline.World.{World, Effect}
use maven.Pipeline.Answers.{replies, completions}
use maven.Pipeline.Handle.{handle}
use maven.Pipeline.Isolation.{handle-OthersStay}
use maven.Pipeline.Reload.{
  Runtimes, with_runtime, IsFresh, begin_turn, end_turn, run_stream, reload, close_old, Reloads,
  at_start, and_then,
}
use maven.Pipeline.Reload.Drained.{AllOther, turns_keep_runtime}

-- Values of metadata are texts or numbers, and a block of content is its text.
abbrev handler : Handler
handler = record {
  router = record { path = []; sessions = []; file = missing };
  workspace = codes "/w";
  has_flush = true;
  seeds = [];
}

abbrev hints : RoutingHints
hints = record {
  session_mode = current_mode;
  force_sync = false;
  builtin_command = [];
  slash_command = [];
  slash_type = [];
  slash_args = [];
  message_id = 4;
}

abbrev message : Text → InboundMessage Text Text
message content = record {
  channel = codes "web";
  sender_id = codes "ann";
  chat_id = codes "7";
  content = content;
  timestamp = 0;
  media = [];
  hints = hints;
  transport_meta = none;
  content_blocks = [];
}

-- A runtime that answers, over a channel that streams or not, with a bus that takes everything.
abbrev world : Bool → World Text Text ℕ
world streams = record {
  surroundings = record {
    env = record { uuid = codes "u1"; nanos = 1740; digest = λ t. codes "0123456789abcdef" };
    rotate_saved = true;
    seed_written = true;
    undo_saved = true;
  };
  parent = none;
  channel_named =
      λ name. some (record { is_stream_channel = streams; is_inbound_preprocessor = true });
  enqueue = λ m. none;
  run = λ ctx req. ok (some (codes " We agreed. "));
  run_stream = λ ctx req. ok (some (codes "We ") ∷ none ∷ some (codes "agreed.") ∷ []);
  send_stream = λ chat md evs. none;
  describe = λ c. [];
  describe_publish = λ e. [];
}

abbrev registry : Registry (Dispatch.Handler Text ℕ)
registry =
    (
      codes "compact",
      (record { name = codes "compact"; description = [] }, handle_compact (λ t. t)),
    )
    ∷ []

abbrev run : Bool → Text → Handler × List (Effect Text Text)
run streams content =
    handle ascii_only text_eq (λ t. t) (λ n. []) (λ t. t) (world streams) (message content)
      (some registry) handler

handle-OthersStay_example :
    OthersStay
      (stable_route_key (message (codes "/compact")))
      handler
      (run false (codes "/compact")).0
handle-OthersStay_example =
    handle-OthersStay ascii_only text_eq (λ t. t) (λ n. []) (λ t. t) (world false)
      (message (codes "/compact")) (some registry) handler

compacts :
    map (λ m. m.content) (replies (run false (codes "/compact")).1)
    ≡ codes "✅ Conversation compacted and continued in a fresh session." ∷ []
unfolding handle handle_compact
compacts = refl

streams_answer :
    map (λ t. t.assistant_msg) (completions (run true (codes "hello")).1) ≡ codes "We agreed." ∷ []
unfolding handle
streams_answer = refl

-- A turn of runtime 0, a reload behind it, a turn of runtime 1, and the close of runtime 0.
abbrev reloaded : Runtimes ℕ
reloaded = record { rt = some 1; turns = 1 ∷ []; streams = []; closing = []; closed = 0 ∷ [] }

fresh : IsFresh {R = ℕ} 1 (with_runtime 0)
fresh = record { not_current = λ e. absurd (ground arith); not_closing = tt; not_closed = tt }

reloading : Reloads (with_runtime 0) reloaded
reloading =
    and_then
      (and_then
        (and_then (and_then (and_then at_start (begin_turn 0 refl)) (end_turn 0 [] [] refl))
          (reload 1 fresh refl))
        (begin_turn 1 refl))
      (close_old 0 [] [] refl)

turns_keep_runtime_example :
    All (λ r. AllOther reloaded.closing r × AllOther reloaded.closed r) (1 ∷ [])
turns_keep_runtime_example = turns_keep_runtime 0 reloaded reloading

-- The lock of RunStream ends before its stream: runtime 0 is closed while its stream goes on.
abbrev outlived : Runtimes ℕ
outlived = record { rt = some 1; turns = []; streams = 0 ∷ []; closing = []; closed = 0 ∷ [] }

stream_outlives_runtime : Reloads (with_runtime 0) outlived
stream_outlives_runtime =
    and_then
      (and_then (and_then at_start (run_stream 0 refl)) (
        reload 1
          (record { not_current = λ e. absurd (ground arith); not_closing = tt; not_closed = tt })
          refl))
      (close_old 0 [] [] refl)
