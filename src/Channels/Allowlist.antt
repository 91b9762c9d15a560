-- ===== src/Channels/Allowlist.antt =====
-- internal/kernel/channels/allowlist/matcher.go. A set is the list of its elements.
use maven.Base.{Bool, true, false, ◌||◌, List, [], ◌∷◌, if◌then◌else◌, is_empty}
use maven.Base.Text.{Text, trim_space, text_eq}

abbrev pub Matcher : Type 0
Matcher = List Text

-- `NewMatcher`.
unfoldable pub new_matcher : List Text → Matcher
unfolding trim_space
new_matcher [] = []
new_matcher (id ∷ ids) =
    let rest = new_matcher ids in if is_empty (trim_space id) then rest else trim_space id ∷ rest

unfoldable pub has_id : Text → Matcher → Bool
unfolding text_eq
has_id id [] = false
has_id id (i ∷ m) = text_eq i id || has_id id m

-- `Allow`.
unfoldable pub allow : Matcher → Text → Bool
unfolding has_id
allow m id = if is_empty m then true else has_id id m
