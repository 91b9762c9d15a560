-- ===== src/Channels/Tests.antt =====
-- Runs of internal/kernel/channels, and its theorems at them.
use maven.Base.{ℕ, true, false, none, some, [], ◌∷◌, ◌≡◌, refl, if◌then◌else◌}
use maven.Base.Assoc.{lookup, insert}
use maven.Base.Text.{Text, codes, text_eq}
use maven.Bus.Delivery.{delivered}
use maven.Channels.Allowlist.{new_matcher, allow}
use maven.Channels.Manager.{Operations, Manager, wanted, apply, started, not_started}

allows_listed : allow (new_matcher (codes " ann " ∷ codes "" ∷ [])) (codes "ann") ≡ true
unfolding allow new_matcher
allows_listed = refl

refuses_others : allow (new_matcher (codes " ann " ∷ codes "" ∷ [])) (codes "bob") ≡ false
unfolding allow new_matcher
refuses_others = refl

-- A channel is its name; the telegram channel does not start.
abbrev pub ops : Operations Text ℕ ℕ
ops = record {
  name = λ c. c;
  send = λ c msg. delivered;
  start_error = λ c. if text_eq c (codes "telegram") then some (codes "no token") else none;
  takes_slashes = λ c. false;
}

abbrev pub fresh : Manager Text ℕ ℕ
fresh = record { channels = []; subs = []; pipeline_slashes = [] }

applies :
    (apply ops (wanted (some (codes "web") ∷ none ∷ some (codes "telegram") ∷ [])) fresh).1
    ≡ started (codes "web") ∷ started (codes "telegram") ∷ []
unfolding apply lookup insert
applies = refl

fails_to_start :
    (apply ops (wanted (some (codes "web") ∷ none ∷ some (codes "telegram") ∷ [])) fresh).2
    ≡ some (not_started (codes "telegram"))
unfolding apply lookup insert text_eq
fails_to_start = refl
