-- ===== src/Slash/Listing.antt =====
-- internal/kernel/slash/registry.go and types.go: the registered commands by name, and the flags of
-- an invocation. Go compares strings by their bytes, which for UTF-8 is by their code points.
use maven.Base.{Bool, true, false, ◌&&◌, ◌||◌, Option, List, [], ◌∷◌, ◌==◌, ltb, map, if◌then◌else◌}
use maven.Base.Assoc.{lookup}
use maven.Base.Text.{Text, text_eq}
use maven.Base.Unicode.{Unicode, to_lower}
use maven.Slash.Parser.{Invocation}
use maven.Slash.Registry.{Definition, Registry}

-- `Flag`; none where there is none.
unfoldable pub flag : Unicode → Text → Invocation → Option Text
unfolding to_lower lookup text_eq
flag u name inv = lookup (to_lower u name) inv.flags

-- `<=` on strings.
unfoldable pub text_leb : Text → Text → Bool
text_leb [] t = true
text_leb (c ∷ s) [] = false
text_leb (c ∷ s) (d ∷ t) = ltb c d || (c == d && text_leb s t)

module _ {H : Type 0} where
  -- `sort.Strings` of the names, with their entries.
  unfoldable pub insert_sorted : Text × (Definition × H) → Registry H → Registry H
  unfolding text_leb
  insert_sorted e [] = e ∷ []
  insert_sorted e (f ∷ r) =
      let rest = insert_sorted e r in if text_leb e.0 f.0 then e ∷ f ∷ r else f ∷ rest

  unfoldable pub sort_entries : Registry H → Registry H
  unfolding insert_sorted
  sort_entries [] = []
  sort_entries (e ∷ r) = insert_sorted e (sort_entries r)

  -- `Definitions`.
  unfoldable pub definitions : Registry H → List Definition
  unfolding sort_entries
  definitions r = map (λ e. e.1.0) (sort_entries r)
