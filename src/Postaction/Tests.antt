-- ===== src/Postaction/Tests.antt =====
-- Runs of internal/kernel/agent/postaction/postaction.go, and its theorem at one.
use maven.Base.{ℕ, true, false, some, [], ◌∷◌, ◌≡◌, ◌≢◌, refl, arith}
use maven.Base.Result.{err}
use maven.Base.Text.{Text, codes, trim_space}
use maven.Sessionid.{Env}
use maven.Session.{missing, current, rotate}
use maven.Slash.Dispatch.{Reply, ack, summary, compact_rotate}
use maven.Postaction.{
  Handler, Surroundings, compact, seed_session_summary, handle_post_response, not_seeded,
  empty_summary,
}
use maven.Postaction.Compaction.{compact-Left, Left, OthersStay}

abbrev env : Env
env = record { uuid = codes "u1"; nanos = 1740; digest = λ t. codes "0123456789abcdef" }

abbrev handler : Handler
handler = record {
  router = record { path = []; sessions = []; file = missing };
  workspace = codes "/w";
  has_flush = false;
  seeds = [];
}

abbrev works : Surroundings
works = record { env = env; rotate_saved = true; seed_written = true; undo_saved = true }

abbrev fails : Surroundings
fails = record { env = env; rotate_saved = true; seed_written = false; undo_saved = true }

abbrev key : Text
key = codes "web:7"

abbrev reply : Reply ℕ
reply = record { command = []; output = []; metadata = []; post_action = some (compact_rotate ack) }

compacts :
    current (compact works key summary (codes " All done. ") handler).0.router key
    ≡ codes "web-7:rotated:1740"
unfolding compact current rotate seed_session_summary
compacts = refl

rolls_back :
    (handle_post_response fails key (codes "All done.") (reply ∷ []) handler).1
    ≡ some (err not_seeded)
unfolding handle_post_response
rolls_back = refl

nothing_to_compact :
    (handle_post_response works key (codes " ") (reply ∷ []) handler).1 ≡ some (err empty_summary)
unfolding handle_post_response
nothing_to_compact = refl

compact-Left_example :
    Left fails key (codes "All done.") handler (compact fails key ack (codes "All done.") handler)
    × OthersStay key handler (compact fails key ack (codes "All done.") handler).0
compact-Left_example = compact-Left fails key ack handler key_filled (codes "All done.")
  where
    key_filled : trim_space key ≢ []
    key_filled = unfold trim_space in λ e. absurd (ground arith)
