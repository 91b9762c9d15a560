-- ===== src/Turnctx/Tests.antt =====
-- A run of internal/kernel/turnctx/turn.go, and its theorem at it.
use maven.Base.{ℕ, none, some, [], ◌∷◌, ◌≡◌, refl}
use maven.Base.Text.{codes}
use maven.Turnctx.{TurnContext, Context, with_inbound, with_metadata, from}
use maven.Turnctx.Overlay.{from-IsReady, IsReady}

abbrev ctx : Context ℕ
ctx =
    with_inbound
      (with_metadata (with_inbound none (codes "a") (codes "1")) (some ((codes "  ping ", 7) ∷ [])))
      (codes "b") (codes " 2 ")

abbrev carried : TurnContext ℕ
carried = record {
  channel = codes "b";
  chat_id = codes "2";
  metadata = some ((codes "ping", 7) ∷ []);
}

preserves_metadata : from ctx ≡ some carried
unfolding from with_inbound with_metadata
preserves_metadata = refl

from-IsReady_example : IsReady carried
from-IsReady_example = from-IsReady ctx carried preserves_metadata
